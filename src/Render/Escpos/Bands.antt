-- ===== src/Render/Escpos/Bands.antt =====
-- appendRasterBands of internal/render/escpos/encode.go: a printer reads the bands of a range of rows
-- as those rows, however tall the bands are.
use receiptd.Base.{
  ℕ, zero, suc, ◌+◌, ◌-◌, ◌*◌, ◌≤◌, ◌<◌, ◌≡◌, refl, sym, ap, ◌∙◌, ◌⊎◌, inl, inr, Bool, true, false,
  some, List, [], ◌++◌, arith, leb, ltb, lt→ltb, ltb→lt, Bool-cases, length, length-take,
  length-drop, take, drop, drop-drop,
}
use mathlib.Core.List.{append_assoc}
use mathlib.Core.Path.{subst₂}
use native.Mathlib.Nat.{mul-le-mul_right}
use receiptd.Render.Escpos.{raster_bands, clipped, slice, lo_hi, raster_command_fixed}
use receiptd.Render.Escpos.Stream.{Event, rows}
use receiptd.Render.Escpos.Reading.{Reads, Reads-raster, rows-add, rows-take}

-- The bytes, before those of `rest`, read as those events, before those of `rest`.
abbrev pub ReadsFirst : List ℕ → List Event → Type 0
ReadsFirst out events =
    (rest : List ℕ) (more : List Event) → Reads rest more → Reads (out ++ rest) (events ++ more)

slice-rows :
    (bits : List ℕ) (w start h : ℕ)
    → (start + h) * w ≤ length bits
    → slice (start * w) ((start + h) * w) bits ≡ some (take (h * w) (drop (start * w) bits))
unfolding slice
slice-rows bits w start h p =
    let e : (start + h) * w - start * w ≡ h * w = omega arith in
    let f : leb ((start + h) * w) (length bits) ≡ true = ground (arith, p) in rw (f, e) refl

length-band :
    (bits : List ℕ) (w start h : ℕ)
    → (start + h) * w ≤ length bits
    → length (take (h * w) (drop (start * w) bits)) ≡ w * h
length-band bits w start h p =
    length-take (h * w) (drop (start * w) bits) ∙ omega (arith, p, length-drop (start * w) bits)

-- The rows of a band and of those after it: the last band is `h` rows tall, any other one `band`.
rows-band :
    (bits : List ℕ) (w band start h n : ℕ)
    → (n ≡ 0) ⊎ (h ≡ band)
    → rows w h (take (h * w) (drop (start * w) bits)) ++ rows w n (drop ((start + band) * w) bits)
      ≡ rows w (h + n) (drop (start * w) bits)
rows-band bits w band start h n c =
    ap (λ t. t ++ rows w n (drop ((start + band) * w) bits))
      (rows-take w h (h * w) (drop (start * w) bits) (omega arith))
    ∙ ap (λ t. rows w h (drop (start * w) bits) ++ t) (after c)
    ∙ sym (rows-add w h n (drop (start * w) bits))
  where
    after :
        (n ≡ 0) ⊎ (h ≡ band)
        → rows w n (drop ((start + band) * w) bits)
          ≡ rows w n (drop (h * w) (drop (start * w) bits))
    after (inl e) = rw e refl
    after (inr e) =
        ap (λ t. rows w n t)
          (rw (sym e) (
            ap (λ (k : ℕ). drop k bits) {x = (start + h) * w} {y = start * w + h * w} (omega arith)
            ∙ sym (drop-drop (start * w) (h * w) bits)))

-- A band of `h` rows ends in range, and either it is the last one or it is as tall as any.
abbrev Fits : ℕ → ℕ → ℕ → ℕ → Type 0
Fits start band end h =
    (h ≤ band)
    × ((start + h ≤ end)
        × ((h + (end - (start + band)) ≡ end - start) × ((end - (start + band) ≡ 0) ⊎ (h ≡ band))))

clipped-Fits :
    (start band end h : ℕ) → start < end → clipped start band end ≡ h → Fits start band end h
unfolding clipped
clipped-Fits start band end h l e = elim (Bool-cases (ltb end (start + band))) [
  | inl b ↦
      let d : h ≡ end - start = sym e ∙ rw b refl in
      (ground arith, (omega (arith, l), (ground arith, inl (ground arith))))
  | inr b ↦
      let d : h ≡ band = sym e ∙ rw b refl in (omega arith, (ground arith, (ground arith, inr d)))
]

module _ (bits : List ℕ) (w band : ℕ) (p : w < 65536) (q : 0 < band) (r : band < 65536) where
  -- The bands of the rows from `start` to `end` are written, and read as those rows.
  abbrev pub Prints : ℕ → ℕ → ℕ → Type 0
  Prints fuel start end =
      (out : List ℕ) × (raster_bands fuel bits w band start end ≡ some out)
      × ReadsFirst out (rows w (end - start) (drop (start * w) bits))

  no_bands :
      (start end : ℕ)
      → ltb start end ≡ false
      → ReadsFirst [] (rows w (end - start) (drop (start * w) bits))
  no_bands start end h rest more r = let e : end - start ≡ 0 = ground (arith, h) in rw e r

  one_band :
      (fuel start end h : ℕ)
      → start < end
      → end * w ≤ length bits
      → clipped start band end ≡ h
      → Prints fuel (start + band) end
      → Prints (suc fuel) start end
  unfolding raster_bands
  one_band fuel start end h l f e (out, g, k) = (
    raster_command_fixed ++ (lo_hi w ++ (lo_hi h ++ (band_dots ++ out))),
    rw (raster_bands, lt→ltb start end l, e, slice-rows bits w start h fits, g) (rw e refl),
    λ rest more m. shown rest more m,
  )
    where
      n : ℕ
      n = end - (start + band)

      band_dots : List ℕ
      band_dots = take (h * w) (drop (start * w) bits)

      bound : Fits start band end h
      bound = clipped-Fits start band end h l e

      fits : (start + h) * w ≤ length bits
      fits = omega (arith, f, mul-le-mul_right w bound.1.0)

      shown :
          ReadsFirst
            (raster_command_fixed ++ (lo_hi w ++ (lo_hi h ++ (band_dots ++ out))))
            (rows w (end - start) (drop (start * w) bits))
      shown rest more m = subst₂ Reads bytes events (
          Reads-raster w h band_dots (out ++ rest)
            (rows w n (drop ((start + band) * w) bits) ++ more) p (omega (arith, r, bound.0))
            (length-band bits w start h fits) (k rest more m))
        where
          bytes :
              raster_command_fixed ++ (lo_hi w ++ (lo_hi h ++ (band_dots ++ (out ++ rest))))
              ≡ (raster_command_fixed ++ (lo_hi w ++ (lo_hi h ++ (band_dots ++ out)))) ++ rest
          bytes =
              ap (λ t. raster_command_fixed ++ (lo_hi w ++ (lo_hi h ++ t)))
                (sym (append_assoc band_dots out rest))

          events :
              rows w h band_dots ++ (rows w n (drop ((start + band) * w) bits) ++ more)
              ≡ rows w (end - start) (drop (start * w) bits) ++ more
          events =
              sym
                (append_assoc (rows w h band_dots) (rows w n (drop ((start + band) * w) bits)) more)
              ∙ ap (λ t. t ++ more)
                  (rows-band bits w band start h n bound.1.1.1
                    ∙ ap (λ (j : ℕ). rows w j (drop (start * w) bits)) bound.1.1.0)

  pub raster_bands-Prints :
      (fuel start end : ℕ) → end * w ≤ length bits → end - start ≤ fuel → Prints fuel start end
  unfolding raster_bands
  raster_bands-Prints zero start end f g =
      let e : ltb start end ≡ false = ground (arith, g) in
      ([], rw (raster_bands, e) refl, no_bands start end e)
  raster_bands-Prints (suc fuel) start end f g =
      go (λ l. raster_bands-Prints fuel (start + band) end f (omega (arith, q, g, l)))
        (ltb start end) refl
    where
      go :
          (start < end → Prints fuel (start + band) end)
          → (b : Bool) → ltb start end ≡ b
          → Prints (suc fuel) start end
      go rest false e = ([], rw (raster_bands, e) refl, no_bands start end e)
      go rest true e =
          let l : start < end = ltb→lt start end e in one_band fuel start end _ l f refl (rest l)
