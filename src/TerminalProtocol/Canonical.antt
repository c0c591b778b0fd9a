-- ===== src/TerminalProtocol/Canonical.antt =====
-- The decoder on every byte string: it never throws, and what it accepts is an encoding.
use parasor.Base.Bytes.{Bytes, IsBytes, u32, u64, of_digits, u32-of_digits}
use parasor.Base.{
  ℕ, ◌+◌, ◌*◌, ◌^◌, ◌<◌, ◌≡◌, sym, ap, subst, suc, false, ◌||◌, ◌/◌, inl, inr, ◌∙◌, [], ◌∷◌, ◌++◌,
  arith, ltb, length, if◌then◌else◌, Bool-cases, ◌==◌, ==_iff,
}
use parasor.TerminalProtocol.BinaryPrefix
use parasor.TerminalProtocol.RoundTrip.{
  encode, Fits, IsInt32, decode_input-cons, decode_output-cons,
}
use parasor.TerminalProtocol.{
  BinaryFrame, input, resize, refresh, flow_pause, flow_resume, output, DecodeResult, decoded,
  malformed, range_error, Reason, refresh_length, flow_pause_length, flow_resume_length,
  resize_max_dim, to_uint32, to_int32, decode_bare, decode_input, decode_resize, resize_of,
  decode_output, decode_exit, decode_prefixed, decode_binary_frame,
}

-- What may be answered on `b`: a frame whose encoding `b` is, or a reason.
abbrev pub Answers : Bytes → DecodeResult → Type 0
Answers b (decoded f) = Fits f × (encode f ≡ b)
Answers b (malformed reason) = Unit
Answers b range_error = ⊥

of_digits-lt : (a b c d : ℕ) → IsBytes (a ∷ b ∷ c ∷ d ∷ []) → of_digits a b c d < 2 ^ 32
of_digits-lt a b c d h = omega arith

to_int32-IsInt32 : (w : ℕ) → w < 2 ^ 32 → IsInt32 (to_int32 w)
to_int32-IsInt32 w h = elim (Bool-cases (ltb w (2 ^ 31))) [
  | inl e ↦ rw e (ground arith)
  | inr e ↦ rw e (ground arith)
]

to_uint32-to_int32 : (w : ℕ) → w < 2 ^ 32 → to_uint32 (to_int32 w) ≡ w
to_uint32-to_int32 w h = ground arith

u32_back :
    (a b c d : ℕ) → IsBytes (a ∷ b ∷ c ∷ d ∷ []) → u32 (of_digits a b c d) ≡ a ∷ b ∷ c ∷ d ∷ []
u32_back a b c d h = ap u32 (omega arith) ∙ u32-of_digits a b c d 0 h

-- The low and the high half of eight bytes.
u64_back :
    (a b c d e f g h : ℕ)
    → IsBytes (a ∷ b ∷ c ∷ d ∷ [])
    → IsBytes (e ∷ f ∷ g ∷ h ∷ [])
    → u64 (of_digits a b c d * 2 ^ 32 + of_digits e f g h) ≡ a ∷ b ∷ c ∷ d ∷ e ∷ f ∷ g ∷ h ∷ []
u64_back a b c d e f g h p q = λ i. high i ++ u32-of_digits e f g h (of_digits a b c d) q i
  where
    high : u32 ((of_digits a b c d * 2 ^ 32 + of_digits e f g h) / 2 ^ 32) ≡ a ∷ b ∷ c ∷ d ∷ []
    high = ap u32 (omega arith) ∙ u32_back a b c d p

-- An answer may be given by any equal one.
answer :
    (b : Bytes) {r : DecodeResult} (f : BinaryFrame)
    → r ≡ decoded f
    → Fits f
    → encode f ≡ b
    → Answers b r
answer b f e h k = rw e (h, k)

decode_input-Answers :
    (buf : Bytes)
    → IsBytes buf
    → Answers (BinaryPrefix.input ∷ buf) (decode_input (BinaryPrefix.input ∷ buf))
decode_input-Answers (a ∷ b ∷ c ∷ d ∷ rest) h =
    answer _ (input (of_digits a b c d) rest) (decode_input-cons BinaryPrefix.input a b c d rest)
      (of_digits-lt a b c d (omega arith))
      (ap (λ u. BinaryPrefix.input ∷ (u ++ rest)) (u32_back a b c d (omega arith)))
decode_input-Answers _ h = unfold decode_input in tt

resize_of-Answers :
    (b : Bytes) (cols rows : ℕ) → encode (resize cols rows) ≡ b → Answers b (resize_of cols rows)
unfolding resize_of
resize_of-Answers b cols rows e =
    elim (Bool-cases
      (cols == 0 || (rows == 0 || (ltb resize_max_dim cols || ltb resize_max_dim rows)))) [
        | inl bad ↦ rw bad tt
        | inr good ↦ rw good ((ground arith, ground arith, ground arith, ground arith), e)
      ]

decode_resize-Answers :
    (buf : Bytes)
    → IsBytes buf
    → Answers (BinaryPrefix.resize ∷ buf) (decode_resize (BinaryPrefix.resize ∷ buf))
unfolding decode_resize
decode_resize-Answers (a ∷ b ∷ c ∷ d ∷ e ∷ f ∷ g ∷ k ∷ []) h =
    resize_of-Answers _ (of_digits a b c d) (of_digits e f g k) (λ i.
      BinaryPrefix.resize ∷ (u32_back a b c d (omega arith) i ++ u32_back e f g k (omega arith) i))
decode_resize-Answers (a ∷ b ∷ c ∷ d ∷ e ∷ f ∷ g ∷ k ∷ _ ∷ rest) h =
    let longer : (suc (suc (suc (suc (suc (suc (suc (suc (suc (suc (length rest)))))))))) == 9)
        ≡ false =
      ground arith in
    rw longer tt
decode_resize-Answers _ h = tt

decode_output-Answers :
    (buf : Bytes)
    → IsBytes buf
    → Answers (BinaryPrefix.output ∷ buf) (decode_output (BinaryPrefix.output ∷ buf))
decode_output-Answers (a ∷ b ∷ c ∷ d ∷ e ∷ f ∷ g ∷ h ∷ i ∷ j ∷ k ∷ l ∷ rest) z =
    answer _ (output (of_digits a b c d) (of_digits e f g h * 2 ^ 32 + of_digits i j k l) rest)
      (decode_output-cons BinaryPrefix.output a b c d e f g h i j k l rest) (omega arith)
      (λ t.
        BinaryPrefix.output
        ∷ (u32_back a b c d (omega arith) t
            ++ (u64_back e f g h i j k l (omega arith) (omega arith) t ++ rest)))
decode_output-Answers _ h = unfold decode_output in tt

decode_exit-Answers :
    (buf : Bytes)
    → IsBytes buf
    → Answers (BinaryPrefix.exit ∷ buf) (decode_exit (BinaryPrefix.exit ∷ buf))
unfolding decode_exit
decode_exit-Answers (a ∷ b ∷ c ∷ d ∷ []) h =
    let w = of_digits-lt a b c d h in
    (
      to_int32-IsInt32 (of_digits a b c d) w,
      ap (λ u. BinaryPrefix.exit ∷ u32 u) (to_uint32-to_int32 (of_digits a b c d) w)
          ∙ ap (◌∷◌ BinaryPrefix.exit) (u32_back a b c d h),
    )
decode_exit-Answers (a ∷ b ∷ c ∷ d ∷ _ ∷ rest) h =
    let longer : (suc (suc (suc (suc (suc (suc (length rest)))))) == 5) ≡ false = ground arith in
    rw longer tt
decode_exit-Answers _ h = tt

bare-Answers :
    (p : ℕ) (buf : Bytes) (r : Reason) (f : BinaryFrame)
    → Fits f
    → encode f ≡ p ∷ []
    → Answers (p ∷ buf) (decode_bare (p ∷ buf) r f)
bare-Answers p [] r f h e = (h, e)
bare-Answers p (a ∷ rest) r f h e =
    let longer : (suc (suc (length rest)) == 1) ≡ false = ground arith in rw longer tt

-- One case of the switch.
case_of :
    (p n : ℕ) (b : Bytes) (x y : DecodeResult)
    → (p ≡ n → Answers b x)
    → Answers b y
    → Answers b (if p == n then x else y)
case_of p n b x y k o = elim (Bool-cases (p == n)) [
  | inl e ↦ rw e (k ((==_iff p n).0 e))
  | inr e ↦ rw e o
]

at_prefix :
    {p n : ℕ} (buf : Bytes) (decode : Bytes → DecodeResult)
    → Answers (n ∷ buf) (decode (n ∷ buf))
    → p ≡ n
    → Answers (p ∷ buf) (decode (p ∷ buf))
at_prefix buf decode a e = subst (λ x. Answers (x ∷ buf) (decode (x ∷ buf))) (sym e) a

decode_prefixed-Answers :
    (p : ℕ) (buf : Bytes) → IsBytes buf → Answers (p ∷ buf) (decode_prefixed p (p ∷ buf))
unfolding decode_prefixed
decode_prefixed-Answers p buf h =
    case_of p BinaryPrefix.input (p ∷ buf) _ _
      (at_prefix buf decode_input (decode_input-Answers buf h))
      (case_of p BinaryPrefix.resize (p ∷ buf) _ _
        (at_prefix buf decode_resize (decode_resize-Answers buf h))
        (case_of p BinaryPrefix.refresh (p ∷ buf) _ _
          (λ e. bare-Answers p buf refresh_length refresh tt (ap (λ x. x ∷ []) (sym e)))
          (case_of p BinaryPrefix.flow_pause (p ∷ buf) _ _
            (λ e. bare-Answers p buf flow_pause_length flow_pause tt (ap (λ x. x ∷ []) (sym e)))
            (case_of p BinaryPrefix.flow_resume (p ∷ buf) _ _
              (λ e. bare-Answers p buf flow_resume_length flow_resume tt (ap (λ x. x ∷ []) (sym e)))
              (case_of p BinaryPrefix.output (p ∷ buf) _ _
                (at_prefix buf decode_output (decode_output-Answers buf h))
                (case_of p BinaryPrefix.exit (p ∷ buf) _ _
                  (at_prefix buf decode_exit (decode_exit-Answers buf h)) tt))))))

-- On any bytes the decoder answers, without an access out of bounds; and where it accepts, the frame
-- fits its fields, a resize is within the limits, and the bytes are the encoding of that frame.
pub decode_binary_frame-Answers : (b : Bytes) → IsBytes b → Answers b (decode_binary_frame b)
unfolding decode_binary_frame
decode_binary_frame-Answers [] h = tt
decode_binary_frame-Answers (p ∷ buf) (_, h) = decode_prefixed-Answers p buf h
