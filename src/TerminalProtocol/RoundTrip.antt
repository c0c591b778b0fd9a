-- ===== src/TerminalProtocol/RoundTrip.antt =====
-- Every frame that fits its fields is read back as it was written.
use parasor.Base.Bytes.{Bytes, of_digits, of_digits-u32, of_digits-u64}
use parasor.Base.Int.{ℤ, pos, negsuc}
use parasor.Base.{ℕ, ◌+◌, ◌*◌, ◌^◌, ◌≤◌, ◌<◌, ◌≡◌, refl, ap, ◌∙◌, ◌∷◌, arith}
use parasor.TerminalProtocol.BinaryPrefix
use parasor.TerminalProtocol.{
  BinaryFrame, input, resize, refresh, flow_pause, flow_resume, output, exit, decoded,
  resize_max_dim, to_uint32, to_int32, encode_output_frame, encode_exit_frame, encode_input_frame,
  encode_resize_frame, encode_refresh_frame, encode_flow_pause_frame, encode_flow_resume_frame,
  decode_input, resize_of, decode_output, decode_binary_frame,
}

-- The encoder for each kind of frame.
abbrev pub encode : BinaryFrame → Bytes
encode (input generation content) = encode_input_frame generation content
encode (resize cols rows) = encode_resize_frame cols rows
encode refresh = encode_refresh_frame
encode flow_pause = encode_flow_pause_frame
encode flow_resume = encode_flow_resume_frame
encode (output generation seq content) = encode_output_frame generation seq content
encode (exit exit_code) = encode_exit_frame exit_code

abbrev pub IsInt32 : ℤ → Type 0
IsInt32 (pos n) = n < 2 ^ 31
IsInt32 (negsuc n) = n < 2 ^ 31

-- The numbers fit the fields; a resize is one that a terminal can have.
abbrev pub Fits : BinaryFrame → Type 0
Fits (input generation content) = generation < 2 ^ 32
Fits (resize cols rows) =
    (0 < cols) × (cols ≤ resize_max_dim) × (0 < rows) × (rows ≤ resize_max_dim)
Fits (output generation seq content) = (generation < 2 ^ 32) × (seq < 2 ^ 64)
Fits (exit exit_code) = IsInt32 exit_code
Fits _ = Unit

to_uint32-lt : (z : ℤ) → to_uint32 z < 2 ^ 32
to_uint32-lt (pos n) = omega arith
to_uint32-lt (negsuc n) = omega arith

pub to_int32-to_uint32 : (z : ℤ) → IsInt32 z → to_int32 (to_uint32 z) ≡ z
to_int32-to_uint32 (pos n) h = ground arith
to_int32-to_uint32 (negsuc n) h = ground arith

pub decode_input-cons :
    (p a b c d : ℕ) (rest : Bytes)
    → decode_input (p ∷ a ∷ b ∷ c ∷ d ∷ rest) ≡ decoded (input (of_digits a b c d) rest)
unfolding decode_input
decode_input-cons p a b c d rest = ground arith

pub decode_output-cons :
    (p a b c d e f g h i j k l : ℕ) (rest : Bytes)
    → decode_output (p ∷ a ∷ b ∷ c ∷ d ∷ e ∷ f ∷ g ∷ h ∷ i ∷ j ∷ k ∷ l ∷ rest)
      ≡ decoded (output (of_digits a b c d) (of_digits e f g h * 2 ^ 32 + of_digits i j k l) rest)
unfolding decode_output
decode_output-cons p a b c d e f g h i j k l rest = ground arith

resize_of-Fits : (c r : ℕ) → Fits (resize c r) → resize_of c r ≡ decoded (resize c r)
unfolding resize_of
resize_of-Fits c r h = ground arith

output_path :
    {g g' n n' : ℕ} (c : Bytes)
    → g ≡ g'
    → n ≡ n'
    → decoded (output g n c) ≡ decoded (output g' n' c)
output_path c p q = λ i. decoded (output (p i) (q i) c)

-- A frame whose numbers fit its fields is decoded from its encoding, with the same content.
pub decode_binary_frame-encode :
    (f : BinaryFrame) → Fits f → decode_binary_frame (encode f) ≡ decoded f
unfolding decode_binary_frame
decode_binary_frame-encode (input g c) h =
    decode_input-cons BinaryPrefix.input _ _ _ _ c
    ∙ ap (λ x. decoded (input x c)) (of_digits-u32 g h)
decode_binary_frame-encode (resize c r) h =
    rw (of_digits-u32 c (omega arith), of_digits-u32 r (omega arith)) (resize_of-Fits c r h)
decode_binary_frame-encode (output g s c) h =
    decode_output-cons BinaryPrefix.output _ _ _ _ _ _ _ _ _ _ _ _ c
    ∙ output_path c (of_digits-u32 g h.0) (of_digits-u64 s h.1)
decode_binary_frame-encode (exit z) h =
    ap (λ x. decoded (exit (to_int32 x))) (of_digits-u32 (to_uint32 z) (to_uint32-lt z))
    ∙ ap (λ x. decoded (exit x)) (to_int32-to_uint32 z h)
decode_binary_frame-encode _ h = refl
