-- ===== src/Render/Page/Places.antt =====
-- The cases of Build (internal/render/layout/build.go) on validated elements, and its loop over them.
use receiptd.Base.{
  ℕ, ◌+◌, ◌*◌, ◌^◌, ◌<◌, ◌≡◌, ◌≢◌, inl, inr, refl, sym, ap, ◌∙◌, Option, none, some, List, [], ◌∷◌,
  arith, Option-cases, Bool-cases,
}
use mathlib.Core.Path.{subst}
use mathlib.Core.Bool.{true≢false}
use receiptd.Base.Int.{ℤ}
use receiptd.Base.Text.{Text, codes}
use receiptd.Apperr.{GoError, Result, ok, err, Result-cases, errorf, wrapf, Arg}
use receiptd.Receipt.{
  Element, Columns, Asset, Barcode, QrCode, nil_element, text, heading, divider, spacer, image,
  asset, qr_code, barcode, columns, table, list, feed, cut, no_columns, column, column_nil,
}
use receiptd.Receipt.Validate.{Codecs, is_empty}
use receiptd.Receipt.Decides.{OneOf, InRange, one_of}
use receiptd.Receipt.Accepts.{IsValid, IsColumn}
use receiptd.Document.{
  GlyphBitmap, Font, IsFont, Placed, Block, Style, normal_style, heading_style, resolve_size, plain,
  table_line, columns_line, list_line, barcode_caption, aligned_asset,
}
use receiptd.Layout.Padding.Fits.{align_pad-Aligns}
use receiptd.Layout.Lines.{columns_list}
use receiptd.Layout.Lines.Ends.{
  IsLight, Ends, table_lines-Ends, columns_lines-Ends, list_lines-Ends,
}
use receiptd.Layout.Bitmaps.{
  resolve_target_width, image_height, asset_height, qr_code_dimensions, barcode_dimensions,
  decode_image_bitmap, decode_aligned_asset_bitmap, generate_qr_code_bitmap,
  generate_barcode_bitmap,
}
use receiptd.Layout.Bitmaps.Agree.{
  IsFeasible, IsCodecs, IsWide, Agrees, HasHeight, image-Agrees, asset-Agrees, qr_code-Agrees,
  barcode-Agrees,
}
use receiptd.Layout.Build.{
  Run, Placing, text_style, block_at, single, stacked, aligned_lines, place_asset, place_barcode,
  place,
}
use receiptd.Render.Escpos.Prints.{IsControl}
use receiptd.Render.Page.{labelled, extent, block_height, raster_bitmap}
use receiptd.Render.Page.Stacks.{
  IsPlaced, IsLine, PlacesWell, TakesRows, stack-IsStacked, line-TakesRows, single-IsStacked,
  raster-TakesRows, is_permanent,
}

resolve_size-positive : (size : ℤ) → 0 < resolve_size size
resolve_size-positive size = ground arith

-- What the columns of an element weigh.
abbrev pub HasLight : Element → Type 0
HasLight (columns cs) = IsLight cs
HasLight e = Unit

module _ (codecs : Codecs) (law : IsCodecs codecs) (f : Font) (font : IsFont f) (w : ℕ)
    (assets : Option (Text → Result (List ℕ)))
    (wide : (get : Text → Result (List ℕ)) (name : Text) (bytes : List ℕ)
      → assets ≡ some get
      → get name ≡ ok bytes
      → IsWide codecs bytes)
    (page : (0 < w) × (w < 2 ^ 36)) where
  abbrev Well : ℕ → Run Placing → Type 0
  Well = PlacesWell codecs f w assets

  aligned_lines-Ends :
      (align : Text) (size : ℕ) (lines : List Text)
      → 0 < size
      → Ends (aligned_lines codecs assets f w align size lines)
  unfolding aligned_lines
  aligned_lines-Ends align size [] p = ([], refl)
  aligned_lines-Ends align size (line ∷ lines) p =
      let (padded, e, r) = align_pad-Aligns f font line align w size p in
      let (rest, e') = aligned_lines-Ends align size lines p in
      (padded ∷ rest, rw (aligned_lines, e, e') refl)

  stacked-Well :
      (make : Text → Placed) (style : Style) (y : ℕ) (o : Option (List Text))
      → ((t : Text) → IsLine codecs f w (make t))
      → 0 < style.size
      → Ends o
      → Well y (stacked codecs assets f w make style y o)
  stacked-Well make style y o m p (lines, e) =
      rw e (stack-IsStacked codecs f w make style lines y m p)

  -- A block whose rows the profile does not bear on: a spacer, a divider, or a control.
  other-TakesRows :
      (b : Block) (h : ℕ)
      → raster_bitmap codecs b.element w ≡ none
      → block_height b f ≡ some h
      → TakesRows h (extent codecs f w b)
  unfolding extent
  other-TakesRows b h r e = rw (extent, r) (rw e (refl, refl))

  cut_mode-IsControl :
      (mode : Text) → OneOf ("" ∷ "full" ∷ "partial" ∷ []) mode → IsControl (cut mode)
  cut_mode-IsControl mode (inl e) q = absurd (true≢false (sym (ap is_empty e) ∙ q))
  cut_mode-IsControl mode (inr h) q = (one_of ("full" ∷ "partial" ∷ []) mode).1 h

  feed-IsControl : (lines : ℤ) → InRange 1 255 lines → IsControl (feed lines)
  feed-IsControl lines h = (ground (arith, h.0), ground (arith, h.1))

  -- The case of a raster element, from its measured height and its bitmap.
  raster-Well :
      (y : ℕ) (element : Placed) (h : ℕ) (r : Run GlyphBitmap) (g : GoError → GoError)
      → IsPlaced element
      → raster_bitmap codecs element w ≡ some (labelled r g)
      → HasHeight h r
      → Well y (single y element h)
  raster-Well y element h r g p e q =
      single-IsStacked codecs f w y h element p
        (raster-TakesRows codecs f w (block_at y normal_style element) h r g e q)

  place_image-Well : (bytes : List ℕ) (y : ℕ) → Well y (place codecs assets f w (image bytes) y)
  unfolding place raster_bitmap
  place_image-Well bytes y = elim (Result-cases (image_height codecs bytes w)) [
    | inl (x, a) ↦ rw (place, a) (inl (is_permanent codecs f w (wrapf "image: %w" [] x)))
    | inr (h, a) ↦
        rw (place, a)
          (raster-Well y (plain (image bytes)) h (decode_image_bitmap codecs bytes w)
            (wrapf "image: %w" []) tt refl
            (subst (λ o. Agrees (some o) (decode_image_bitmap codecs bytes w)) a
              (image-Agrees codecs law bytes w)))
  ]

  place_qr_code-Well : (q : QrCode) (y : ℕ) → Well y (place codecs assets f w (qr_code q) y)
  unfolding place raster_bitmap
  place_qr_code-Well q y = elim (Result-cases (qr_code_dimensions codecs q w)) [
    | inl (x, a) ↦ rw (place, a) (inl (is_permanent codecs f w (wrapf "qrcode: %w" [] x)))
    | inr ((x, h), a) ↦
        rw (place, a)
          (raster-Well y (plain (qr_code q)) h (generate_qr_code_bitmap codecs q w)
            (wrapf "qrcode: %w" []) tt refl
            (subst
              (λ o.
                Agrees (elim o [ err e ↦ some (err e) | ok (x, h) ↦ some (ok h) ])
                  (generate_qr_code_bitmap codecs q w))
              a (qr_code-Agrees codecs law q w)))
  ]

  -- A width that is asked for is clamped to the page.
  feasible : (requested : ℤ) → IsFeasible requested w
  unfolding resolve_target_width
  feasible requested = ground (arith, page)

  place_asset-Well : (a : Asset) (y : ℕ) → Well y (place_asset codecs assets f w a y)
  unfolding place_asset raster_bitmap
  place_asset-Well a y = elim (Option-cases assets) [
    | inl p ↦
        rw (place_asset, p)
          (inl (
            is_permanent codecs f w
              (errorf "asset %q: no assets.Store configured to resolve it" (Arg.text a.name ∷ []))))
    | inr (get, p) ↦ elim (Result-cases (get a.name)) [
      | inl (x, q) ↦ rw (place_asset, p, q) (inr (get, (refl, (a.name, q))))
      | inr (bytes, q) ↦
          let agrees : Agrees (asset_height codecs bytes a.width w) (painted bytes) =
            asset-Agrees codecs law bytes a.width a.align w (wide get a.name bytes p q)
              (feasible a.width) in
          elim (Option-cases (asset_height codecs bytes a.width w)) [
            | inl c ↦ absurd (subst (λ o. Agrees o (painted bytes)) c agrees)
            | inr (err x, c) ↦
                rw (place_asset, p, q, c) (inl (is_permanent codecs f w (wrapf "asset: %w" [] x)))
            | inr (ok h, c) ↦
                rw (place_asset, p, q, c)
                  (single-IsStacked codecs f w y h (aligned_asset bytes a.width a.align) tt (
                    raster-TakesRows codecs f w
                      (block_at y normal_style (aligned_asset bytes a.width a.align)) h
                      (painted bytes) (wrapf "asset: %w" []) refl
                      (subst (λ o. Agrees o (painted bytes)) c agrees)))
          ]
    ]
  ]
    where
      painted : List ℕ → Run GlyphBitmap
      painted bytes = decode_aligned_asset_bitmap codecs bytes a.width a.align w

  place_barcode-Well : (b : Barcode) (y : ℕ) → Well y (place_barcode codecs assets f w b y)
  unfolding place_barcode raster_bitmap
  place_barcode-Well b y = elim (Result-cases (barcode_dimensions codecs b w)) [
    | inl (x, a) ↦ rw (place_barcode, a) (inl (is_permanent codecs f w (wrapf "barcode: %w" [] x)))
    | inr ((x, h), a) ↦
        let rows : TakesRows h (extent codecs f w (block_at y normal_style (plain (barcode b)))) =
          raster-TakesRows codecs f w (block_at y normal_style (plain (barcode b))) h
            (generate_barcode_bitmap codecs b w) (wrapf "barcode: %w" []) refl
            (subst
              (λ o.
                Agrees (elim o [ err e ↦ some (err e) | ok (x, h) ↦ some (ok h) ])
                  (generate_barcode_bitmap codecs b w))
              a (barcode-Agrees codecs law b w)) in
        let (caption, c, r) =
          align_pad-Aligns f font b.content (codes "center") x 1 (omega arith) in
        elim (Bool-cases b.show_text) [
          | inr s ↦
              rw (place_barcode, a, s) (single-IsStacked codecs f w y h (plain (barcode b)) tt rows)
          | inl s ↦
              rw (place_barcode, a, s, c)
                (
                  refl,
                  (
                    (omega arith, tt),
                    (
                      h,
                      (
                        rows,
                        (
                          refl,
                          (
                            (omega arith, tt),
                            (
                              f.line_height * 1,
                              (
                                line-TakesRows codecs f w
                                    (block_at (y + h) normal_style (barcode_caption caption))
                                    (refl, ((caption, refl), tt)),
                                omega arith,
                              ),
                            ),
                          ),
                        ),
                      ),
                    ),
                  ),
                )
        ]
  ]

  columns_list-ne-nil : (cs : Columns) → IsColumn codecs cs → columns_list cs ≢ []
  columns_list-ne-nil no_columns h e = absurd h
  columns_list-ne-nil (column weight es cs) h e = cc
  columns_list-ne-nil (column_nil weight cs) h e = cc

  place_columns-Well :
      (cs : Columns) (y : ℕ)
      → IsColumn codecs cs
      → IsLight cs
      → Well y (place codecs assets f w (columns cs) y)
  unfolding place raster_bitmap
  place_columns-Well cs y h light =
      let (r, a) = columns_lines-Ends f font cs w (columns_list-ne-nil cs h) light in
      elim (Result-cases r) [
        | inl (x, b) ↦ rw (place, a, b) (inl (is_permanent codecs f w (wrapf "columns: %w" [] x)))
        | inr (lines, b) ↦
            rw (place, a, b)
              (stacked-Well columns_line normal_style y (some lines) (λ t. (refl, ((t, refl), tt)))
                (omega arith) (lines, refl))
      ]

  -- Each case of Build, on an element that Validate accepts, with weights of columns that add up
  -- within an int.
  pub place-PlacesWell :
      (e : Element) (y : ℕ)
      → IsValid codecs e
      → HasLight e
      → PlacesWell codecs f w assets y (place codecs assets f w e y)
  unfolding place raster_bitmap block_height IsValid
  place-PlacesWell nil_element y h light = absurd h
  place-PlacesWell (text t) y h light =
      stacked-Well _ (text_style t) y _ (λ l. (refl, ((l, refl), tt)))
        (resolve_size-positive t.size)
        (aligned_lines-Ends t.align (resolve_size t.size) _ (resolve_size-positive t.size))
  place-PlacesWell (heading content) y h light =
      stacked-Well _ heading_style y _ (λ l. (refl, ((l, refl), tt))) (omega arith) (_, refl)
  place-PlacesWell (divider d) y h light =
      single-IsStacked codecs f w y _ _ tt (other-TakesRows _ _ refl refl)
  place-PlacesWell (spacer height) y h light =
      single-IsStacked codecs f w y _ _ tt (other-TakesRows _ _ refl refl)
  place-PlacesWell (image bytes) y h light = place_image-Well bytes y
  place-PlacesWell (asset a) y h light = place_asset-Well a y
  place-PlacesWell (qr_code q) y h light = place_qr_code-Well q y
  place-PlacesWell (barcode b) y h light = place_barcode-Well b y
  place-PlacesWell (columns cs) y h light = place_columns-Well cs y h.0 light
  place-PlacesWell (table t) y h light =
      stacked-Well table_line normal_style y _ (λ l. (refl, ((l, refl), tt))) (omega arith)
        (table_lines-Ends f font t w h)
  place-PlacesWell (list x) y h light =
      stacked-Well list_line normal_style y _ (λ l. (refl, ((l, refl), tt))) (omega arith)
        (list_lines-Ends f font x w h)
  place-PlacesWell (feed lines) y h light =
      single-IsStacked codecs f w y _ _ (feed-IsControl lines h) (other-TakesRows _ _ refl refl)
  place-PlacesWell (cut mode) y h light =
      single-IsStacked codecs f w y _ _ (cut_mode-IsControl mode h) (other-TakesRows _ _ refl refl)
