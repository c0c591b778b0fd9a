-- ===== src/Osc7Parser/Tests.antt =====
-- Runs of the parser on a shell's report of the directory `/a`, whole and in two chunks.
use parasor.Base.Bytes.{Bytes}
use parasor.Base.{Option, none, some, [], ◌∷◌, ◌++◌, ◌≡◌, refl, String, arith, take, drop}
use parasor.Osc7Parser.{
  esc, bel, osc7_prefix, starts_with, find_osc, split_terminator, split_slash, parse_file_uri,
  or_else, scan, feed,
}
use parasor.Osc7Parser.Streams.{feed_append}
use parasor.Osc7Parser.Splits.{feed-loses-split_prefix}

abbrev scheme : Bytes
scheme = b'f' ∷ b'i' ∷ b'l' ∷ b'e' ∷ b':' ∷ b'/' ∷ b'/' ∷ []

abbrev report : Bytes
report = scheme ++ b'/' ∷ b'a' ∷ []

abbrev decode : Bytes → Option String
decode path = some "/a"

abbrev parse : Bytes → Option String
parse = parse_file_uri decode

parse-report : parse report ≡ some "/a"
unfolding parse_file_uri starts_with split_slash
parse-report = refl

feed-report : feed parse [] (osc7_prefix ++ report ++ esc ∷ b'\\' ∷ b'x' ∷ []) ≡ ([], some "/a")
unfolding feed scan parse_file_uri find_osc starts_with split_terminator split_slash
feed-report = refl

feed-start : feed parse [] (osc7_prefix ++ scheme) ≡ (osc7_prefix ++ scheme, none)
unfolding feed scan parse_file_uri find_osc starts_with split_terminator split_slash
feed-start = refl

feed_append_example : feed parse [] ((osc7_prefix ++ scheme) ++ b'/' ∷ b'a' ∷ bel ∷ []) ≡ (
    let next = feed parse (osc7_prefix ++ scheme) (b'/' ∷ b'a' ∷ bel ∷ []) in
    (next.0, or_else next.1 none))
feed_append_example =
    feed_append parse [] (osc7_prefix ++ scheme) (b'/' ∷ b'a' ∷ bel ∷ []) feed-start
      (λ e. absurd cc)

feed-loses-split_prefix_example :
    (feed parse [] (osc7_prefix ++ report ++ bel ∷ []) ≡ ([], or_else (parse report) none))
    × (feed parse [] (take 2 osc7_prefix) ≡ ([], none))
    × (feed parse [] (drop 2 osc7_prefix ++ report ++ bel ∷ []) ≡ ([], none))
feed-loses-split_prefix_example =
    feed-loses-split_prefix parse 2 report (omega arith) (omega arith) refl refl (omega arith)
