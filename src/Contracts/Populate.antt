-- ===== src/Contracts/Populate.antt =====
-- packages/nouns-contracts/tasks/populate-descriptor.ts: filling the descriptor.
use nouns_monorepo.Prelude.{ℕ, List, [], ◌∷◌, ◌++◌, map, Option, some, ◌>>=◌}
use nouns_monorepo.Sdk.Text.{Text}
use nouns_monorepo.Assets.{EncodedImage, ImageData}
use nouns_monorepo.Contracts.Chunks.{chunk_array}

-- The transactions of the task
pub data Call : Type 0 where
  add_many_backgrounds : List Text → Call
  add_many_colors_to_palette : ℕ → List Text → Call
  add_many_bodies : List Text → Call
  add_many_accessories : List Text → Call
  add_many_heads : List Text → Call
  add_many_glasses : List Text → Call

abbrev pub data_of : List EncodedImage → List Text
data_of images = map (λ i. i.fields) images

abbrev pub calls_of : (List Text → Call) → List (List EncodedImage) → List Call
calls_of call [] = []
calls_of call (chunk ∷ chunks) = call (data_of chunk) ∷ calls_of call chunks

-- `none` where the chunks never end.
unfoldable pub populate_descriptor : ImageData → List Text → Option (List Call)
unfolding chunk_array
populate_descriptor images palette = do
  accessory_chunk ← chunk_array images.accessories 10
  head_chunk ← chunk_array images.heads 10
  some (
      add_many_backgrounds images.bgcolors
      ∷ add_many_colors_to_palette 0 palette
      ∷ add_many_bodies (data_of images.bodies)
      ∷ (calls_of add_many_accessories accessory_chunk
          ++ (calls_of add_many_heads head_chunk
              ++ add_many_glasses (data_of images.glasses_images) ∷ [])))

-- What the descriptor holds after the calls, in their order
pub record Art : Type 0 where
  pub backgrounds : List Text
  pub bodies : List Text
  pub accessories : List Text
  pub heads : List Text
  pub glasses : List Text

abbrev add_call : Call → Art → Art
add_call (add_many_backgrounds ts) a = record a { backgrounds = a.backgrounds ++ ts }
add_call (add_many_colors_to_palette i ts) a = a
add_call (add_many_bodies ts) a = record a { bodies = a.bodies ++ ts }
add_call (add_many_accessories ts) a = record a { accessories = a.accessories ++ ts }
add_call (add_many_heads ts) a = record a { heads = a.heads ++ ts }
add_call (add_many_glasses ts) a = record a { glasses = a.glasses ++ ts }

abbrev pub add_calls : List Call → Art → Art
add_calls [] a = a
add_calls (call ∷ calls) a = add_calls calls (add_call call a)

abbrev pub no_art : Art
no_art = record { backgrounds = []; bodies = []; accessories = []; heads = []; glasses = [] }
