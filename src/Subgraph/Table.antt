-- ===== src/Subgraph/Table.antt =====
-- What the handlers rely on of the entity store of The Graph (graph-ts `Entity.load` and
-- `Entity.save`, not part of this repository): a table of entities under text ids.
use Prim.Native.String.{String}
use native.Mathlib.Omega.{arith}
use text.Mathlib.Text.{◌==◌}
use text.Mathlib.TextEquality.{eq_iff}
use nouns_monorepo.Prelude.{◌≡◌, refl, Option, some, none, if◌then◌else◌}

-- `merge` says what a save leaves of the row that stood there: The Graph keeps the attributes
-- that the saved object has never set. An entity is found under its own id.
pub record Table (E : Type 0) (id : E → String) (merge : Option E → E → E) : Type 1 where
  pub Rows : Type 0
  pub load : Rows → String → Option E
  pub save : Rows → E → Rows
  pub load-save :
      (r : Rows) (e : E) (k : String)
      → load (save r e) k ≡ (if id e == k then some (merge (load r k) e) else load r k)
  pub id-load : (r : Rows) (k : String) (e : E) → load r k ≡ some e → id e ≡ k

-- For the entities whose handlers set every attribute, or load before they save.
abbrev pub overwrite : {E : Type 0} → Option E → E → E
overwrite _ e = e

module _ {E : Type 0} (id : E → String) (merge : Option E → E → E)
    (id-merge : (o : Option E) (e : E) → id (merge o e) ≡ id e) where
  abbrev pub IsKeyed : (String → Option E) → Type 0
  IsKeyed f = (k : String) (e : E) → f k ≡ some e → id e ≡ k

  abbrev pub write : (String → Option E) → E → String → Option E
  write f e k = if id e == k then some (merge (f k) e) else f k

  pub write-IsKeyed : (f : String → Option E) (e : E) → IsKeyed f → IsKeyed (write f e)
  write-IsKeyed f e h k x p = ground (arith, h k x, eq_iff (id e) k, id-merge (f k) e)

  -- A table as a function of the id: it shows that the laws can be met, and runs the examples.
  abbrev pub map_table : Table E id merge
  map_table = record {
    Rows = (f : String → Option E) × IsKeyed f;
    load = λ r k. r.0 k;
    save = λ r e. (write r.0 e, write-IsKeyed r.0 e r.1);
    load-save = λ r e k. refl;
    id-load = λ r k e h. r.1 k e h;
  }

  pub empty_IsKeyed : IsKeyed (λ _. none)
  empty_IsKeyed k e p = ground arith

  abbrev pub empty_rows : (f : String → Option E) × IsKeyed f
  empty_rows = ((λ _. none), empty_IsKeyed)
