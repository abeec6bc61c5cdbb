-- ===== src/Bmff/Gops/Gathering.antt =====
-- tools/src/container.ts: what the loop over the samples of a GOP adds up, written without its state.
use vcap_spec.Prelude.{
  ℕ, ◌≡◌, refl, sym, ap, ◌∙◌, Bool, Option, some, List, [], ◌∷◌, ◌++◌, arith, Option-cases, inl,
  inr, append-nil, append_assoc, ℤ, pos, ◌-ℤ◌,
}
use vcap_spec.Bytes.{Bytes}
use vcap_spec.Bmff.Samples.{Sample}
use vcap_spec.Bmff.Sei.{Sei, no_sei, bad_sei, vcap_sei, sei_of}
use vcap_spec.Bmff.Units.{
  AccessUnit, Gathered, gather_sei, gather_nals, gather_sample, gather_units,
}

-- The bytes of the units that are no vcap SEI, in whatever shape.
content_of : Option Sei → Bytes → Bytes
content_of (some no_sei) nal = nal
content_of _ nal = []

unfoldable pub nals_content : (hevc : Bool) → List Bytes → Bytes
unfolding content_of
nals_content hevc [] = []
nals_content hevc (nal ∷ nals) = content_of (sei_of nal hevc) nal ++ nals_content hevc nals

unfoldable pub video_content : (hevc : Bool) → List AccessUnit → Bytes
video_content hevc [] = []
video_content hevc (u ∷ us) = nals_content hevc u.nals ++ video_content hevc us

-- The captures and indices that the vcap SEI name.
names_of : Option Sei → List (Bytes × ℕ)
names_of (some (vcap_sei capture_id index)) = (capture_id, index) ∷ []
names_of _ = []

unfoldable pub nals_names : (hevc : Bool) → List Bytes → List (Bytes × ℕ)
unfolding names_of
nals_names hevc [] = []
nals_names hevc (nal ∷ nals) = names_of (sei_of nal hevc) ++ nals_names hevc nals

unfoldable pub video_names : (hevc : Bool) → List AccessUnit → List (Bytes × ℕ)
video_names hevc [] = []
video_names hevc (u ∷ us) = nals_names hevc u.nals ++ video_names hevc us

-- The decode times from that of the first sample, and the composition offsets.
unfoldable pub decode_times : (dts0 : ℕ) → List AccessUnit → List ℤ
decode_times dts0 [] = []
decode_times dts0 (u ∷ us) = (pos u.sample.dts -ℤ pos dts0) ∷ decode_times dts0 us

unfoldable pub composition_offsets : List AccessUnit → List ℤ
composition_offsets [] = []
composition_offsets (u ∷ us) = u.sample.cts ∷ composition_offsets us

-- What the units add, on the content, the names and the times so far.
abbrev Adds : Gathered → Gathered → Bytes → List (Bytes × ℕ) → List ℤ → List ℤ → Type 0
Adds g h content seis dts cts =
    (h.content ≡ g.content ++ content)
    × (h.seis ≡ g.seis ++ seis)
    × (h.dts ≡ g.dts ++ dts)
    × (h.cts ≡ g.cts ++ cts)

gather_sei-Adds :
    (nal : Bytes) (g : Gathered) (s : Sei)
    → Adds g (gather_sei nal g s) (content_of (some s) nal) (names_of (some s)) [] []
unfolding gather_sei content_of names_of
gather_sei-Adds nal g no_sei =
    (refl, sym (append-nil g.seis), sym (append-nil g.dts), sym (append-nil g.cts))
gather_sei-Adds nal g (bad_sei r) = (
  sym (append-nil g.content),
  sym (append-nil g.seis),
  sym (append-nil g.dts),
  sym (append-nil g.cts),
)
gather_sei-Adds nal g (vcap_sei c i) =
    (sym (append-nil g.content), refl, sym (append-nil g.dts), sym (append-nil g.cts))

Adds-trans :
    (g h k : Gathered) (c d : Bytes) (s t : List (Bytes × ℕ)) (x y u v : List ℤ)
    → Adds g h c s x u
    → Adds h k d t y v
    → Adds g k (c ++ d) (s ++ t) (x ++ y) (u ++ v)
Adds-trans g h k c d s t x y u v (a1, a2, a3, a4) (b1, b2, b3, b4) = (
  b1 ∙ ap (λ z. z ++ d) a1 ∙ append_assoc g.content c d,
  b2 ∙ ap (λ z. z ++ t) a2 ∙ append_assoc g.seis s t,
  b3 ∙ ap (λ z. z ++ y) a3 ∙ append_assoc g.dts x y,
  b4 ∙ ap (λ z. z ++ v) a4 ∙ append_assoc g.cts u v,
)

gather_nals-Adds :
    (hevc : Bool) (nals : List Bytes) (g h : Gathered)
    → gather_nals hevc nals g ≡ some h
    → Adds g h (nals_content hevc nals) (nals_names hevc nals) [] []
unfolding gather_nals nals_content nals_names
gather_nals-Adds hevc [] g h e =
    let same : g ≡ h = ground (arith, e) in
    rw (← same) (
      (
        sym (append-nil g.content),
        sym (append-nil g.seis),
        sym (append-nil g.dts),
        sym (append-nil g.cts),
      ))
gather_nals-Adds hevc (nal ∷ nals) g h e = elim (Option-cases (sei_of nal hevc)) [
  | inl k ↦ absurd (ground (arith, k, e))
  | inr (s, k) ↦
      let rest = gather_nals-Adds hevc nals (gather_sei nal g s) h (ground (arith, k, e)) in
      rw k (
        Adds-trans g (gather_sei nal g s) h (content_of (some s) nal) (nals_content hevc nals)
          (names_of (some s)) (nals_names hevc nals) [] [] [] [] (gather_sei-Adds nal g s) rest)
]

gather_sample-Adds :
    (dts0 : ℕ) (s : Sample) (g : Gathered)
    → Adds g (gather_sample dts0 s g) [] [] ((pos s.dts -ℤ pos dts0) ∷ []) (s.cts ∷ [])
unfolding gather_sample
gather_sample-Adds dts0 s g = (sym (append-nil g.content), sym (append-nil g.seis), refl, refl)

pub gather_units-Adds :
    (hevc : Bool) (dts0 : ℕ) (us : List AccessUnit) (g h : Gathered)
    → gather_units hevc dts0 us g ≡ some h
    → Adds g h
        (video_content hevc us)
        (video_names hevc us)
        (decode_times dts0 us)
        (composition_offsets us)
unfolding gather_units video_content video_names decode_times composition_offsets
gather_units-Adds hevc dts0 [] g h e =
    let same : g ≡ h = ground (arith, e) in
    rw (← same) (
      (
        sym (append-nil g.content),
        sym (append-nil g.seis),
        sym (append-nil g.dts),
        sym (append-nil g.cts),
      ))
gather_units-Adds hevc dts0 (u ∷ us) g h e =
    elim (Option-cases (gather_nals hevc u.nals (gather_sample dts0 u.sample g))) [
      | inl k ↦ absurd (ground (arith, k, e))
      | inr (m, k) ↦
          let own =
            Adds-trans g (gather_sample dts0 u.sample g) m [] (nals_content hevc u.nals) []
              (nals_names hevc u.nals) ((pos u.sample.dts -ℤ pos dts0) ∷ []) [] (u.sample.cts ∷ [])
              [] (gather_sample-Adds dts0 u.sample g)
              (gather_nals-Adds hevc u.nals (gather_sample dts0 u.sample g) m k) in
          Adds-trans g m h (nals_content hevc u.nals) (video_content hevc us)
            (nals_names hevc u.nals) (video_names hevc us) ((pos u.sample.dts -ℤ pos dts0) ∷ [])
            (decode_times dts0 us) (u.sample.cts ∷ []) (composition_offsets us) own
            (gather_units-Adds hevc dts0 us m h (ground (arith, k, e)))
    ]
