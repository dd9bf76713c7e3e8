-- ===== src/Contracts/Filled.antt =====
-- What tasks/populate-descriptor.ts leaves in the descriptor.
use mathlib.Core.List.{append_assoc, append-nil}
use nouns_monorepo.Prelude.{◌≡◌, refl, ap, sym, ◌∙◌, List, [], ◌∷◌, ◌++◌, some}
use nouns_monorepo.Sdk.Text.{Text}
use nouns_monorepo.Assets.{EncodedImage, ImageData}
use nouns_monorepo.Contracts.Chunks.{concat, chunk_array-concat}
use nouns_monorepo.Contracts.Populate.{
  Call, add_many_backgrounds, add_many_colors_to_palette, add_many_bodies, add_many_accessories,
  add_many_heads, add_many_glasses, data_of, calls_of, populate_descriptor, Art, add_calls, no_art,
}

add_calls-append :
    (xs ys : List Call) (a : Art) → add_calls (xs ++ ys) a ≡ add_calls ys (add_calls xs a)
add_calls-append [] ys a = refl
add_calls-append (x ∷ xs) ys a = add_calls-append xs ys _

data_of-append : (xs ys : List EncodedImage) → data_of (xs ++ ys) ≡ data_of xs ++ data_of ys
data_of-append [] ys = refl
data_of-append (x ∷ xs) ys = ap (λ t. x.fields ∷ t) (data_of-append xs ys)

chunk_added :
    (ts : List Text) (chunk : List EncodedImage) (chunks : List (List EncodedImage))
    → (ts ++ data_of chunk) ++ data_of (concat chunks) ≡ ts ++ data_of (chunk ++ concat chunks)
chunk_added ts chunk chunks =
    append_assoc ts (data_of chunk) (data_of (concat chunks))
    ∙ ap (λ t. ts ++ t) (sym (data_of-append chunk (concat chunks)))

accessories_added :
    (chunks : List (List EncodedImage)) (a : Art)
    → add_calls (calls_of add_many_accessories chunks) a
      ≡ record a { accessories = a.accessories ++ data_of (concat chunks) }
accessories_added [] a = ap (λ t. record a { accessories = t }) (sym (append-nil a.accessories))
accessories_added (chunk ∷ chunks) a =
    accessories_added chunks (record a { accessories = a.accessories ++ data_of chunk })
    ∙ ap (λ t. record a { accessories = t }) (chunk_added a.accessories chunk chunks)

heads_added :
    (chunks : List (List EncodedImage)) (a : Art)
    → add_calls (calls_of add_many_heads chunks) a
      ≡ record a { heads = a.heads ++ data_of (concat chunks) }
heads_added [] a = ap (λ t. record a { heads = t }) (sym (append-nil a.heads))
heads_added (chunk ∷ chunks) a =
    heads_added chunks (record a { heads = a.heads ++ data_of chunk })
    ∙ ap (λ t. record a { heads = t }) (chunk_added a.heads chunk chunks)

-- All the art of the images
pub art_of : ImageData → Art
art_of images = record {
  backgrounds = images.bgcolors;
  bodies = data_of images.bodies;
  accessories = data_of images.accessories;
  heads = data_of images.heads;
  glasses = data_of images.glasses_images;
}

-- The task ends, and its calls put all backgrounds, bodies, accessories, heads and glasses into a
-- descriptor that has none, in their order.
pub populate_descriptor-art_of :
    (images : ImageData) (palette : List Text)
    → (calls : List Call) × (populate_descriptor images palette ≡ some calls)
      × (add_calls calls no_art ≡ art_of images)
unfolding populate_descriptor art_of
populate_descriptor-art_of images palette =
    let (accessory_chunk, e, c, w) = chunk_array-concat images.accessories 9 in
    let (head_chunk, f, d, v) = chunk_array-concat images.heads 9 in
    let start : Art = record no_art {
      backgrounds = images.bgcolors;
      bodies = data_of images.bodies;
    } in
    let glasses : List Call = add_many_glasses (data_of images.glasses_images) ∷ [] in
    let calls : List Call =
      add_many_backgrounds images.bgcolors
      ∷ add_many_colors_to_palette 0 palette
      ∷ add_many_bodies (data_of images.bodies)
      ∷ (calls_of add_many_accessories accessory_chunk
          ++ (calls_of add_many_heads head_chunk ++ glasses)) in
    (
      calls,
      rw (e, f) refl,
      add_calls-append (calls_of add_many_accessories accessory_chunk)
            (calls_of add_many_heads head_chunk ++ glasses) start
          ∙ rw (accessories_added accessory_chunk start, c)
              (add_calls-append (calls_of add_many_heads head_chunk) glasses
                  (record start { accessories = data_of images.accessories })
                ∙ rw
                    (
                      heads_added head_chunk
                          (record start { accessories = data_of images.accessories }),
                      d,
                    )
                    refl),
    )
