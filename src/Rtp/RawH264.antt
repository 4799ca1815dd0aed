-- ===== src/Rtp/RawH264.antt =====
-- `RawH264NALSource` of src/rtp/rawh264source.cpp: the NAL units of a file in Annex B form, and the
-- frames that they make up. Reading the file is an argument: what `ReadFile` returned.
pub mod Extract
pub mod Frames
mod Examples
use camera_player.Prelude.{
  ℕ, zero, suc, ◌+◌, Bool, true, false, not, ◌&&◌, ◌||◌, ltb, leb, ◌==◌, if◌then◌else◌, Option,
  none, some, List, [], ◌∷◌, ◌++◌, length, take, drop, Bytes, bit_and,
}

-- `struct NALData`; `data` is called `bytes` here.
pub record NalData : Type 0 where
  pub bytes : Bytes
  pub nal_type : ℕ

-- The size of the start code at the front of the bytes that are left, 0 if there is none.
abbrev pub start_code_size : Bytes → ℕ
start_code_size (a ∷ b ∷ c ∷ d ∷ rest) =
    if a == 0 && b == 0 && c == 0 && d == 1 then 4 else if a == 0 && b == 0 && c == 1 then 3 else 0
start_code_size (a ∷ b ∷ c ∷ []) = if a == 0 && b == 0 && c == 1 then 3 else 0
start_code_size _ = 0

-- The inner loop of `ExtractNALUnits`: the bytes up to the next start code, and those from there on.
abbrev pub before_byte : ℕ → Bytes × Bytes → Bytes × Bytes
before_byte b (nal, rest) = (b ∷ nal, rest)

pub take_nal : Bytes → Bytes × Bytes
take_nal [] = ([], [])
take_nal (b ∷ bs) =
    let more = before_byte b (take_nal bs) in
    if start_code_size (b ∷ bs) == 0 then more else ([], b ∷ bs)

-- A unit is kept if it has bytes.
abbrev pub push_nal : Bytes → List NalData → List NalData
push_nal [] nals = nals
push_nal (b ∷ bs) nals = record { bytes = b ∷ bs; nal_type = bit_and b 0x1F } ∷ nals

abbrev pub push_found : Bytes → Option (List NalData) → Option (List NalData)
push_found nal none = none
push_found nal (some nals) = some (push_nal nal nals)

-- The outer loop of `ExtractNALUnits`, on the bytes that are left. It takes fuel.
pub extract_loop : ℕ → Bytes → Option (List NalData)
unfolding take_nal
extract_loop fuel [] = some []
extract_loop zero (b ∷ bs) = none
extract_loop (suc fuel) (b ∷ bs) =
    let size = start_code_size (b ∷ bs) in
    let (nal, rest) = take_nal (drop size (b ∷ bs)) in
    let skipped = extract_loop fuel bs in
    let found = push_found nal (extract_loop fuel rest) in if size == 0 then skipped else found

-- `ExtractNALUnits`. Each round takes a byte or more, so their number is fuel enough.
pub extract_nal_units : Bytes → Option (List NalData)
unfolding extract_loop
extract_nal_units bytes = extract_loop (length bytes) bytes

-- `struct NALUnit`, as far as this source fills it in.
pub record NalUnit : Type 0 where
  pub bytes : Bytes
  pub kind : ℕ
  pub pts : ℕ
  pub dts : ℕ
  pub is_keyframe : Bool

-- The fields of the source.
pub record RawH264NalSource : Type 0 where
  pub file_data : Bytes
  pub cached_nals : List NalData
  pub nal_index : ℕ
  pub is_opened : Bool
  pub eof_reached : Bool
  pub sps : Bytes
  pub pps : Bytes

-- The constructor's state, and that of `Close`.
abbrev pub closed_source : RawH264NalSource
closed_source = record {
  file_data = [];
  cached_nals = [];
  nal_index = 0;
  is_opened = false;
  eof_reached = false;
  sps = [];
  pps = [];
}

-- The parameter sets: the last units of types 7 and 8.
abbrev pub store_sets : List NalData → RawH264NalSource → RawH264NalSource
store_sets [] s = s
store_sets (n ∷ ns) s =
    let s' = if n.nal_type == 7 then record s { sps = n.bytes } else s in
    store_sets ns (if n.nal_type == 8 then record s' { pps = n.bytes } else s')

-- `Open`, with what `ReadFile` returned, and its result.
pub open_source : Bytes → RawH264NalSource → Option (Bool × RawH264NalSource)
unfolding extract_nal_units
open_source [] s = some (false, record s { file_data = [] })
open_source (b ∷ bs) s = elim (extract_nal_units (b ∷ bs)) [
  | none ↦ none
  | some [] ↦ some (false, record s { file_data = b ∷ bs; cached_nals = [] })
  | some (n ∷ ns) ↦ some (
    true,
    store_sets (n ∷ ns) (record s {
      file_data = b ∷ bs;
      cached_nals = n ∷ ns;
      nal_index = 0;
      is_opened = true;
      eof_reached = false;
    }),
  )
]

-- The unit that is made from the one at an index.
abbrev pub unit_of : ℕ → NalData → NalUnit
unit_of index n = record {
  bytes = n.bytes;
  kind = n.nal_type;
  pts = index;
  dts = index;
  is_keyframe = n.nal_type == 5;
}

abbrev pub is_vcl : ℕ → Bool
is_vcl kind = leb 1 kind && leb kind 5

-- The loop of `ReadNextFrame` on the units from an index on, with the frame so far and the type of its
-- first VCL unit, 0 before there is one: the frame, and the index behind it.
pub frame_loop : ℕ → List NalData → List NalUnit → ℕ → List NalUnit × ℕ
frame_loop index [] frame first_vcl_type = (frame, index)
frame_loop index (n ∷ ns) [] first_vcl_type =
    frame_loop (index + 1) ns (unit_of index n ∷ [])
      (if is_vcl n.nal_type then n.nal_type else first_vcl_type)
frame_loop index (n ∷ ns) (u ∷ us) first_vcl_type =
    let frame = u ∷ us in
    let kept =
      frame_loop (index + 1) ns (if n.nal_type == 9 then frame else frame ++ unit_of index n ∷ [])
        (if is_vcl n.nal_type then n.nal_type else first_vcl_type) in
    if is_vcl n.nal_type && not (first_vcl_type == 0) then (frame, index) else kept

-- The end of `ReadNextFrame`.
abbrev pub finish_frame :
    List NalUnit × ℕ → RawH264NalSource → Option (List NalUnit) × RawH264NalSource
finish_frame ([], index) s = (none, record s { nal_index = index; eof_reached = true })
finish_frame (u ∷ us, index) s = (some (u ∷ us), record s { nal_index = index })

-- `ReadNextFrame`.
unfoldable pub read_next_frame : RawH264NalSource → Option (List NalUnit) × RawH264NalSource
unfolding frame_loop
read_next_frame s =
    if not s.is_opened || s.eof_reached || leb (length s.cached_nals) s.nal_index
    then (none, record s { eof_reached = true })
    else finish_frame (frame_loop s.nal_index (drop s.nal_index s.cached_nals) [] 0) s

-- `Reset`, and `Seek`, which ignores its time.
abbrev pub reset_source : RawH264NalSource → RawH264NalSource
reset_source s = record s { nal_index = 0; eof_reached = false }

-- `HasMoreData`.
abbrev pub has_more_data : RawH264NalSource → Bool
has_more_data s = s.is_opened && not s.eof_reached && ltb s.nal_index (length s.cached_nals)
