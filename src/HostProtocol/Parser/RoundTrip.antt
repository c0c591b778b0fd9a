-- ===== src/HostProtocol/Parser/RoundTrip.antt =====
-- What `encodeFrame` writes, `FrameParser` reads.
use parasor.Base.Bytes.{Bytes, read_u32, of_digits-u32, of_digits-u64}
use parasor.Base.Int.{ℤ, pos, negsuc, is_neg, exceeds}
use parasor.Base.{
  ℕ, ◌+◌, ◌≤◌, ◌≡◌, refl, ap, subst, ◌∙◌, false, ◌||◌, some, List, [], ◌∷◌, ◌++◌, arith, length,
  take, drop, flatten, take_append, take_all, drop-append_self, length-append,
}
use parasor.HostProtocol.Frame.{
  Result, ok, err, range_error, Frame, layout, encode_frame, to_nat, frame_header_bytes,
  max_payload_bytes,
}
use parasor.HostProtocol.Parser.Split.{taken, split}
use parasor.HostProtocol.Parser.Drain.{Decodes, stop, more, new_parser-IsIdle}
use parasor.HostProtocol.Parser.Chunks.{
  Ending, reached, thrown, thrown_range_error, fuel_out, Transcript, push_all, Run, Reads,
  push_all-Run, Taken-Rejects, Decodes-unique, Decodes-not-Rejects,
}
use parasor.HostProtocol.Parser.{new_parser, read_frame, buffered_bytes}

-- A field that passes its check is a number in range.
record InRange (z : ℤ) (max_value : ℕ) : Type 0 where
  is_pos : pos (to_nat z) ≡ z
  bounded : to_nat z ≤ max_value

-- A frame that `encodeFrame` accepts.
record IsSendable (f : Frame) : Type 0 where
  payload_fits : length f.payload ≤ max_payload_bytes
  type_fits : InRange f.type 0xff
  connection_id_fits : InRange f.connection_id 0xffff_ffff
  generation_fits : InRange f.generation 0xffff_ffff_ffff_ffff
  request_id_fits : InRange f.request_id 0xffff_ffff

in_range : (z : ℤ) (m : ℕ) → (is_neg z || exceeds z m) ≡ false → InRange z m
in_range (pos n) m h = record { is_pos = refl; bounded = ground arith }
in_range (negsuc n) m h = cc

encode_frame-ok : (f : Frame) {b : Bytes} → encode_frame f ≡ ok b → IsSendable f × (b ≡ layout f)
unfolding encode_frame
encode_frame-ok f e = ground (
  arith,
  in_range f.type 0xff,
  in_range f.connection_id 0xffff_ffff,
  in_range f.generation 0xffff_ffff_ffff_ffff,
  in_range f.request_id 0xffff_ffff,
)

length-layout : (f : Frame) → length (layout f) ≡ 4 + (frame_header_bytes + length f.payload)
length-layout f = omega arith

first_is_length :
    (f : Frame) (rest : Bytes)
    → IsSendable f
    → read_u32 (layout f ++ rest) 0 ≡ some (frame_header_bytes + length f.payload)
first_is_length f rest s =
    ap some (of_digits-u32 (frame_header_bytes + length f.payload) (omega (arith, s.payload_fits)))

payload-layout :
    (f : Frame) (rest : Bytes)
    → drop 21 (take (4 + (frame_header_bytes + length f.payload)) (layout f ++ rest)) ≡ f.payload
payload-layout f rest =
    let n = 4 + (frame_header_bytes + length f.payload) in
    ap (drop 21) (
      take_append n (layout f) rest (omega (arith, length-layout f))
      ∙ take_all n (layout f) (omega (arith, length-layout f)))

frame_path :
    (f : Frame) {t i g r : ℤ} {b : Bytes}
    → t ≡ f.type
    → i ≡ f.connection_id
    → g ≡ f.generation
    → r ≡ f.request_id
    → b ≡ f.payload
    → ◌≡◌ {A = Frame}
        (record { type = t; connection_id = i; generation = g; request_id = r; payload = b })
        f
frame_path f t i g r b = λ k. record {
  type = t k;
  connection_id = i k;
  generation = g k;
  request_id = r k;
  payload = b k;
}

read_frame-layout :
    (f : Frame) (rest : Bytes)
    → IsSendable f
    → read_frame (layout f ++ rest) (frame_header_bytes + length f.payload) ≡ ok f
unfolding read_frame
read_frame-layout f rest s = ap ok (
    frame_path f (ap pos (omega (arith, s.type_fits.bounded)) ∙ s.type_fits.is_pos)
      (ap pos (of_digits-u32 (to_nat f.connection_id) (omega (arith, s.connection_id_fits.bounded)))
        ∙ s.connection_id_fits.is_pos)
      (ap pos (of_digits-u64 (to_nat f.generation) (omega (arith, s.generation_fits.bounded)))
        ∙ s.generation_fits.is_pos)
      (ap pos (of_digits-u32 (to_nat f.request_id) (omega (arith, s.request_id_fits.bounded)))
        ∙ s.request_id_fits.is_pos)
      (payload-layout f rest))

split_whole :
    (b : Bytes) (total : ℕ) {f : Frame}
    → read_u32 b 0 ≡ some total
    → frame_header_bytes ≤ total
    → total ≤ frame_header_bytes + max_payload_bytes
    → 4 + total ≤ length b
    → read_frame b total ≡ ok f
    → split b ≡ taken f (drop (4 + total) b)
unfolding split
split_whole b total e l u h r = ground arith

split-layout : (f : Frame) (rest : Bytes) → IsSendable f → split (layout f ++ rest) ≡ taken f rest
split-layout f rest s =
    split_whole (layout f ++ rest) (frame_header_bytes + length f.payload)
      (first_is_length f rest s) (omega arith) (omega (arith, s.payload_fits))
      (omega (arith, length-append (layout f) rest, length-layout f)) (read_frame-layout f rest s)
    ∙ ap (taken f) behind
  where
    behind : drop (4 + (frame_header_bytes + length f.payload)) (layout f ++ rest) ≡ rest
    behind = rw (← length-layout f) (drop-append_self (layout f) rest)

abbrev join : Result Bytes → Result Bytes → Result Bytes
join (ok b) (ok bs) = ok (b ++ bs)
join (ok b) (err e) = err e
join (ok b) range_error = range_error
join (err e) bs = err e
join range_error bs = range_error

-- The encodings of a list of frames, one after another.
unfoldable pub encode_all : List Frame → Result Bytes
encode_all [] = ok []
encode_all (f ∷ fs) = join (encode_frame f) (encode_all fs)

join-ok :
    (x y : Result Bytes) {z : Bytes}
    → join x y ≡ ok z
    → (b : Bytes) × (bs : Bytes) × (x ≡ ok b) × (y ≡ ok bs) × (z ≡ b ++ bs)
join-ok (ok b) (ok bs) e = (b, bs, refl, refl, cc)
join-ok (ok b) (err c) e = cc
join-ok (ok b) range_error e = cc
join-ok (err c) bs e = cc
join-ok range_error bs e = cc

encode_all-Decodes : (fs : List Frame) {b : Bytes} → encode_all fs ≡ ok b → Decodes [] b fs
unfolding encode_all
encode_all-Decodes [] e = nothing cc
  where
    nothing : {b : Bytes} → [] ≡ b → Decodes [] b []
    nothing h = subst (λ x. Decodes [] x []) h (stop refl new_parser-IsIdle.waiting)
encode_all-Decodes (f ∷ fs) e =
    let (b, bs, h, t, z) = join-ok (encode_frame f) (encode_all fs) e in
    let (s, l) = encode_frame-ok f h in
    rw (z, l) (more (split-layout f bs s) (encode_all-Decodes fs t))

comes_out :
    (t : Transcript) {b : Bytes} {fs : List Frame}
    → Run b t
    → Decodes [] b fs
    → (t.delivered ≡ fs) × (t.ending ≡ reached) × (t.parser.size ≡ 0)
comes_out t {b} {fs} o d = ends t.ending o
  where
    ends :
        (e : Ending)
        → Reads b t.parser t.delivered e
        → (t.delivered ≡ fs) × (e ≡ reached) × (t.parser.size ≡ 0)
    ends reached o =
        let (same, rest) = Decodes-unique o.1 d in (same, refl, o.0.valid.sized ∙ ap length rest)
    ends (thrown e) (r, h, k) = absurd (Decodes-not-Rejects d (Taken-Rejects h k))
    ends thrown_range_error o = absurd o
    ends fuel_out o = absurd o

-- Frames that `encodeFrame` accepts and that arrive in chunks of any size come out of a new parser
-- unchanged and in order, no call throws, and nothing stays behind in the parser.
pub push_all-encode_all :
    (fs : List Frame) (cs : List Bytes)
    → encode_all fs ≡ ok (flatten cs)
    → ((push_all new_parser cs).delivered ≡ fs)
      × ((push_all new_parser cs).ending ≡ reached)
      × (buffered_bytes (push_all new_parser cs).parser ≡ 0)
unfolding buffered_bytes
push_all-encode_all fs cs e =
    comes_out (push_all new_parser cs) (push_all-Run new_parser cs new_parser-IsIdle)
      (encode_all-Decodes fs e)
