-- ===== src/Rtp/RawH264/Frames.antt =====
-- `ReadNextFrame`: how the units of a file are cut into frames.
use mathlib.Core.Path.{subst}
use camera_player.Prelude.{
  ℕ, zero, suc, ◌+◌, ◌≤◌, ◌<◌, true, false, not, ◌&&◌, ◌||◌, leb, ◌==◌, if◌then◌else◌, Option, some,
  ◌≡◌, ◌≢◌, refl, sym, ap, ◌∙◌, arith, Bool-cases, inl, inr, List, [], ◌∷◌, ◌++◌, append-nil,
  append_assoc, length, length-drop, drop-drop, take, drop,
}
use camera_player.Rtp.RawH264.{
  NalData, NalUnit, RawH264NalSource, unit_of, is_vcl, frame_loop, finish_frame, read_next_frame,
  has_more_data,
}

-- The units from an index on, without the access unit delimiters.
abbrev pub units_from : ℕ → List NalData → List NalUnit
units_from index [] = []
units_from index (n ∷ ns) =
    if n.nal_type == 9
    then units_from (index + 1) ns
    else unit_of index n ∷ units_from (index + 1) ns

-- The units of a frame: the first one, and those behind it but the delimiters.
abbrev pub frame_units : ℕ → List NalData → List NalUnit
frame_units index [] = []
frame_units index (n ∷ ns) = unit_of index n ∷ units_from (index + 1) ns

-- How many VCL units there are.
abbrev pub vcl_count : List NalUnit → ℕ
vcl_count [] = 0
vcl_count (u ∷ us) = if is_vcl u.kind then suc (vcl_count us) else vcl_count us

-- The next frame begins here: at the end, or at a VCL unit behind a frame that has its own.
abbrev pub IsCut : List NalUnit → List NalData → Type 0
IsCut frame [] = Unit {0}
IsCut frame (n ∷ ns) = (is_vcl n.nal_type ≡ true) × (vcl_count frame ≡ 1)

-- How the loop ends, with `k` units taken.
record Taken (index : ℕ) (ns : List NalData) (frame : List NalUnit) (r : List NalUnit × ℕ)
    : Type 0 where
  k : ℕ
  within : k ≤ length ns
  units : r.0 ≡ frame ++ units_from index (take k ns)
  behind : r.1 ≡ index + k
  one_vcl : vcl_count r.0 ≤ 1
  cut : IsCut r.0 (drop k ns)

-- The type that is kept tells whether the frame has a VCL unit.
abbrev Tracks : List NalUnit → ℕ → Type 0
Tracks frame first =
    (first ≡ 0 → vcl_count frame ≡ 0) × (vcl_count frame ≤ 1) × (first ≢ 0 → vcl_count frame ≡ 1)

vcl_count-append : (a b : List NalUnit) → vcl_count (a ++ b) ≡ vcl_count a + vcl_count b
vcl_count-append [] b = omega arith
vcl_count-append (u ∷ us) b = ground (arith, vcl_count-append us b)

units_from-cons :
    (index : ℕ) (n : NalData) (ns : List NalData)
    → units_from index (n ∷ ns) ≡ units_from index (n ∷ []) ++ units_from (index + 1) ns
units_from-cons index n ns = ground arith

-- A unit that does not begin the next frame is counted.
Tracks-snoc :
    (n : NalData) (index first : ℕ) (frame : List NalUnit)
    → is_vcl n.nal_type && not (first == 0) ≡ false
    → Tracks frame first
    → Tracks (frame ++ unit_of index n ∷ []) (if is_vcl n.nal_type then n.nal_type else first)
Tracks-snoc n index first frame e (h, l, g) =
    ground (arith, vcl_count-append frame (unit_of index n ∷ []))

-- One more unit is taken before the loop goes on.
Taken-suc :
    (index : ℕ) (n : NalData) (ns : List NalData) (frame frame' : List NalUnit)
    (r : List NalUnit × ℕ)
    → frame' ≡ frame ++ units_from index (n ∷ [])
    → Taken (index + 1) ns frame' r
    → Taken index (n ∷ ns) frame r
Taken-suc index n ns frame frame' r e t = record {
  k = suc t.k;
  within = ground (arith, t.within);
  units =
      t.units
      ∙ ap (λ f. f ++ units_from (index + 1) (take t.k ns)) e
      ∙ append_assoc frame _ _
      ∙ ap (λ f. frame ++ f) (sym (units_from-cons index n (take t.k ns)));
  behind = ground (arith, t.behind);
  one_vcl = t.one_vcl;
  cut = t.cut;
}

frame_loop-Taken :
    (index : ℕ) (ns : List NalData) (u : NalUnit) (us : List NalUnit) (first : ℕ)
    → Tracks (u ∷ us) first
    → Taken index ns (u ∷ us) (frame_loop index ns (u ∷ us) first)
unfolding frame_loop
frame_loop-Taken index [] u us first (h, l, g) = record {
  k = 0;
  within = omega arith;
  units = sym (append-nil _);
  behind = omega arith;
  one_vcl = l;
  cut = _;
}
frame_loop-Taken index (n ∷ ns) u us first (h, l, g) =
    elim (Bool-cases (is_vcl n.nal_type && not (first == 0))) [
      | inl e ↦ rw e (record {
        k = 0;
        within = omega arith;
        units = sym (append-nil _);
        behind = omega arith;
        one_vcl = l;
        cut = (ground arith, ground (arith, g));
      })
      | inr e ↦ rw e (elim (Bool-cases (n.nal_type == 9)) [
        | inl d ↦ rw d (
            Taken-suc index n ns (u ∷ us) (u ∷ us) _ (ground (arith, append-nil us))
              (frame_loop-Taken (index + 1) ns u us _ (ground arith)))
        | inr d ↦ rw d (
            Taken-suc index n ns (u ∷ us) (u ∷ (us ++ unit_of index n ∷ [])) _ (rw d refl) (
              frame_loop-Taken (index + 1) ns u (us ++ unit_of index n ∷ []) _
                (Tracks-snoc n index first (u ∷ us) e (h, l, g))))
      ])
    ]

-- What `ReadNextFrame` yields: a frame of `k` units behind the index, without the delimiters that are
-- not in front.
pub record IsFrame (s : RawH264NalSource) (r : Option (List NalUnit) × RawH264NalSource)
    : Type 0 where
  pub k : ℕ
  pub progress : 1 ≤ k
  pub within : s.nal_index + k ≤ length s.cached_nals
  pub frame : r.0 ≡ some (frame_units s.nal_index (take k (drop s.nal_index s.cached_nals)))
  pub one_vcl : vcl_count (frame_units s.nal_index (take k (drop s.nal_index s.cached_nals))) ≤ 1
  pub behind : r.1 ≡ record s { nal_index = s.nal_index + k }
  pub cut :
      IsCut
        (frame_units s.nal_index (take k (drop s.nal_index s.cached_nals)))
        (drop (s.nal_index + k) s.cached_nals)

IsFrame-Taken :
    (s : RawH264NalSource) (n : NalData) (ns : List NalData) (r : List NalUnit × ℕ)
    → drop s.nal_index s.cached_nals ≡ n ∷ ns
    → Taken (s.nal_index + 1) ns (unit_of s.nal_index n ∷ []) r
    → IsFrame s (finish_frame r s)
IsFrame-Taken s n ns (frame, index) e t =
    rw (t.units, t.behind)
      (record {
        k = suc t.k;
        progress = omega arith;
        within =
            omega (arith, t.within, ap (λ xs. length xs) e, length-drop s.nal_index s.cached_nals);
        frame = rw e refl;
        one_vcl = rw e (subst (λ us. vcl_count us ≤ 1) t.units t.one_vcl);
        behind = ap (λ i. record s { nal_index = i }) (omega arith);
        cut =
            rw (sym (drop-drop s.nal_index (suc t.k) s.cached_nals), e)
              (subst (λ us. IsCut us (drop t.k ns)) t.units t.cut);
      })

-- A source with more data has a unit at its index.
has_rest :
    (i : ℕ) (xs : List NalData)
    → i < length xs
    → (n : NalData) × (ns : List NalData) × drop i xs ≡ n ∷ ns
has_rest i [] h = elim h [ ]
has_rest zero (x ∷ xs) h = (x, xs, refl)
has_rest (suc i) (x ∷ xs) h = has_rest i xs (omega arith)

-- An opened source that is not at its end yields a frame: it takes one unit or more, keeps all of
-- them but the delimiters behind the first, has at most one VCL unit, ends where the units end or,
-- with a VCL unit of its own, where another one begins the next frame, and only moves the index behind
-- the units it took.
pub read_next_frame-IsFrame :
    (s : RawH264NalSource) → has_more_data s ≡ true → IsFrame s (read_next_frame s)
unfolding read_next_frame frame_loop
read_next_frame-IsFrame s h =
    let guard : (not s.is_opened || s.eof_reached || leb (length s.cached_nals) s.nal_index)
        ≡ false =
      ground arith in
    let (n, ns, e) = has_rest s.nal_index s.cached_nals (ground arith) in
    rw (guard, e)
      (IsFrame-Taken s n ns (frame_loop s.nal_index (n ∷ ns) [] 0) e (
        frame_loop-Taken (s.nal_index + 1) ns (unit_of s.nal_index n) []
          (if is_vcl n.nal_type then n.nal_type else 0) (ground arith)))
