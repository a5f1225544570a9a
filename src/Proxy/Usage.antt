-- ===== src/Proxy/Usage.antt =====
-- internal/proxy/usage.go: the model and the token counts in an answer. The JSON decoder of one
-- document is a parameter.
pub mod Last
use cc_mysub.Base.{
  Bytes, codes, ◌==◌, is_empty, is_positive, ℤ, pos, has_prefix, drop, length, trim_space, List, [],
  ◌∷◌, ◌++◌, Option, none, some, if◌then◌else◌,
}

pub record Usage : Type 0 where
  pub model : Bytes
  pub input_tokens : ℤ
  pub output_tokens : ℤ

abbrev pub no_usage : Usage
no_usage = record { model = []; input_tokens = pos 0; output_tokens = pos 0 }

pub record Counts : Type 0 where
  pub input : ℤ
  pub output : ℤ

-- usageWire: a missing member is its zero value.
pub record UsageWire : Type 0 where
  pub model : Bytes
  pub message_model : Bytes
  pub message_usage : Counts
  pub usage : Counts

abbrev pub Decoder : Type 0
Decoder = Bytes → Option UsageWire

abbrev json_usage : Option UsageWire → Usage
json_usage none = no_usage
json_usage (some w) = record {
  model = w.model;
  input_tokens = w.usage.input;
  output_tokens = w.usage.output;
}

unfoldable pub sniff_usage_json : Decoder → Bytes → Usage
sniff_usage_json decode b = json_usage (decode b)

-- bytes.Split(b, "\n")
split_from : Bytes → Bytes → List Bytes
split_from cur [] = cur ∷ []
split_from cur (c ∷ s) =
    let next = split_from [] s in
    let more = split_from (cur ++ c ∷ []) s in if c == 10 then cur ∷ next else more

unfoldable pub split_lines : Bytes → List Bytes
unfolding split_from
split_lines b = split_from [] b

-- One frame's document, merged into what is known.
unfoldable pub merge_wire : Usage → UsageWire → Usage
unfolding is_empty is_positive
merge_wire u w = record {
  model = (if is_empty w.message_model then u.model else w.message_model);
  input_tokens =
      (if is_positive w.usage.input
        then w.usage.input
        else if is_positive w.message_usage.input
        then w.message_usage.input
        else u.input_tokens);
  output_tokens = (if is_positive w.usage.output then w.usage.output else u.output_tokens);
}

merge_decoded : Usage → Option UsageWire → Usage
unfolding merge_wire
merge_decoded u none = u
merge_decoded u (some w) = merge_wire u w

abbrev pub data_prefix : Bytes
data_prefix = codes "data:"

unfoldable pub sniff_line : Decoder → Usage → Bytes → Usage
unfolding merge_decoded has_prefix trim_space
sniff_line decode u line =
    if has_prefix line data_prefix
    then merge_decoded u (decode (trim_space (drop (length data_prefix) line)))
    else u

unfoldable pub sniff_lines : Decoder → Usage → List Bytes → Usage
unfolding sniff_line
sniff_lines decode u [] = u
sniff_lines decode u (l ∷ ls) = sniff_lines decode (sniff_line decode u l) ls

unfoldable pub sniff_usage_sse : Decoder → Bytes → Usage
unfolding sniff_lines split_lines
sniff_usage_sse decode b = sniff_lines decode no_usage (split_lines b)
