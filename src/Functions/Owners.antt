-- ===== src/Functions/Owners.antt =====
-- Whether an address owns a noun, or represents one, in packages/nouns-webapp/functions/theGraph.ts.
use nouns_monorepo.Prelude.{
  ℕ, ◌≡◌, refl, ◌⊎◌, inl, inr, ◌↔◌, Bool, true, false, List, [], ◌∷◌, if◌then◌else◌, ◌==◌, Option,
  none, some, arith, ap,
}
use nouns_monorepo.Sdk.Text.{Text}
use nouns_monorepo.Functions.Nouns.{
  NormalizedNoun, big_numbers_equal, keep_if, filter_nouns, owner_filter, has_some, is_noun_owner,
}

module _ (test : NormalizedNoun → Option Bool) where
  -- The test says yes or no of every noun.
  AllAnswered : List NormalizedNoun → Type 0
  AllAnswered [] = Unit
  AllAnswered (noun ∷ nouns) = ((passes : Bool) × (test noun ≡ some passes)) × AllAnswered nouns

  -- It says yes of one.
  SomePass : List NormalizedNoun → Type 0
  SomePass [] = false ≡ true
  SomePass (noun ∷ nouns) = (test noun ≡ some true) ⊎ SomePass nouns

  has_some-keep_if :
      (noun : NormalizedNoun) (passes : Bool) (rest : Option (List NormalizedNoun)) (found : Bool)
      → has_some rest ≡ some found
      → has_some (keep_if noun (some passes) rest) ≡ some (if passes then true else found)
  has_some-keep_if noun passes none found h = ground (arith, h)
  has_some-keep_if noun true (some rest) found h = ap some (ground arith)
  has_some-keep_if noun false (some rest) found h = h

  some_pass :
      (noun : NormalizedNoun) (passes found : Bool) (nouns : List NormalizedNoun)
      → test noun ≡ some passes
      → (found ≡ true) ↔ SomePass nouns
      → ((if passes then true else found) ≡ true) ↔ SomePass (noun ∷ nouns)
  unfolding SomePass
  some_pass noun true found nouns e i = ((λ h. inl e), (λ h. refl))
  some_pass noun false found nouns e i =
      ((λ h. inr (i.0 h)), (λ h. elim h [ inl f ↦ absurd (ground (arith, e, f)) | inr p ↦ i.1 p ]))

  -- The answer, and that it says whether a noun passes.
  filter_nouns-answer :
      (nouns : List NormalizedNoun)
      → AllAnswered nouns
      → (found : Bool) × (has_some (filter_nouns test nouns) ≡ some found)
        × ((found ≡ true) ↔ SomePass nouns)
  unfolding filter_nouns AllAnswered SomePass
  filter_nouns-answer [] r = (false, refl, ground arith)
  filter_nouns-answer (noun ∷ nouns) ((passes, e), r) =
      let (found, h, i) = filter_nouns-answer nouns r in
      (
        if passes then true else found,
        rw e (has_some-keep_if noun passes (filter_nouns test nouns) found h),
        some_pass noun passes found nouns e i,
      )

module _ (big_number_from : Text → Option ℕ) where
  -- The owners' addresses can be read.
  unfoldable pub OwnersRead : List NormalizedNoun → Type 0
  OwnersRead [] = Unit
  OwnersRead (noun ∷ nouns) = ((n : ℕ) × (big_number_from noun.owner ≡ some n)) × OwnersRead nouns

  -- One of the nouns is owned by the address `a`.
  unfoldable pub IsOwned : ℕ → List NormalizedNoun → Type 0
  IsOwned a [] = false ≡ true
  IsOwned a (noun ∷ nouns) = (big_number_from noun.owner ≡ some a) ⊎ IsOwned a nouns

  module _ (address : Text) (a : ℕ) (here : big_number_from address ≡ some a) where
    abbrev owner_test : NormalizedNoun → Option Bool
    owner_test noun = big_numbers_equal big_number_from address noun.owner

    big_numbers_equal_lem :
        (t : Text) (n : ℕ)
        → big_number_from t ≡ some n
        → big_numbers_equal big_number_from address t ≡ some (a == n)
    unfolding big_numbers_equal
    big_numbers_equal_lem t n e = rw (here, e) refl

    OwnersRead-AllAnswered :
        (nouns : List NormalizedNoun) → OwnersRead nouns → AllAnswered owner_test nouns
    unfolding OwnersRead AllAnswered
    OwnersRead-AllAnswered [] r = tt
    OwnersRead-AllAnswered (noun ∷ nouns) ((n, e), r) =
        ((a == n, big_numbers_equal_lem noun.owner n e), OwnersRead-AllAnswered nouns r)

    same_owner :
        (t : Text) (n : ℕ)
        → big_number_from t ≡ some n
        → (big_numbers_equal big_number_from address t ≡ some true) ↔ (big_number_from t ≡ some a)
    same_owner t n e = ground (arith, big_numbers_equal_lem t n e, e)

    SomePass-IsOwned :
        (nouns : List NormalizedNoun)
        → OwnersRead nouns
        → SomePass owner_test nouns ↔ IsOwned a nouns
    unfolding OwnersRead SomePass IsOwned
    SomePass-IsOwned [] r = ((λ h. h), (λ h. h))
    SomePass-IsOwned (noun ∷ nouns) ((n, e), r) =
        let s = same_owner noun.owner n e in
        let i = SomePass-IsOwned nouns r in
        (
          λ h. elim h [ inl f ↦ inl (s.0 f) | inr p ↦ inr (i.0 p) ],
          λ h. elim h [ inl f ↦ inl (s.1 f) | inr p ↦ inr (i.1 p) ],
        )

    -- If the owners' addresses can be read, the answer is yes exactly if the address is that of
    -- the owner of one of the nouns.
    pub is_noun_owner-IsOwned :
        (nouns : List NormalizedNoun)
        → OwnersRead nouns
        → (is_noun_owner big_number_from address nouns ≡ some true) ↔ IsOwned a nouns
    unfolding is_noun_owner owner_filter
    is_noun_owner-IsOwned nouns r =
        let (found, h, i) = filter_nouns-answer owner_test nouns (OwnersRead-AllAnswered nouns r) in
        let s = SomePass-IsOwned nouns r in
        (λ f. s.0 (i.0 (ground (arith, h, f))), λ o. rw h (ap some (i.1 (s.1 o))))
