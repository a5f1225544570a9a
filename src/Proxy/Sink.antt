-- ===== src/Proxy/Sink.antt =====
-- defaultSink of internal/proxy/middleware.go: the attributes of the log line of one request.
use cc_mysub.Base.{ℕ, Bytes, codes, ℤ, is_empty, List, [], ◌∷◌, ◌++◌, if◌then◌else◌}
use cc_mysub.Proxy.Chain.{AccessRecord}

pub data Value : Type 0 where
  text : Bytes → Value
  number : ℕ → Value
  count : ℤ → Value
  texts : List Bytes → Value

abbrev pub Attr : Type 0
Attr = Bytes × Value

abbrev pub usage_attrs : AccessRecord → List Attr
usage_attrs rec =
    if is_empty rec.usage.model
    then []
    else (codes "model", text rec.usage.model)
      ∷ (codes "input_tokens", count rec.usage.input_tokens)
      ∷ (codes "output_tokens", count rec.usage.output_tokens)
      ∷ []

abbrev pub outbound_attrs : Bytes → List Attr
outbound_attrs warn = if is_empty warn then [] else (codes "baseline_out", text warn) ∷ []

abbrev pub inbound_attrs : List Bytes → List Attr
inbound_attrs [] = []
inbound_attrs (w ∷ ws) = (codes "baseline_in", texts (w ∷ ws)) ∷ []

unfoldable pub attrs : AccessRecord → List Attr
unfolding is_empty
attrs rec =
    (codes "device", text rec.device)
    ∷ (codes "method", text rec.method)
    ∷ (codes "path", text rec.path)
    ∷ (codes "status", number rec.status)
    ∷ (usage_attrs rec ++ (outbound_attrs rec.outbound_warn ++ inbound_attrs rec.inbound_warns))
