-- ===== src/Tests/Conversions.antt =====
-- Conversions of an event by plugins/processors/converter/, and what plugins/processors/parser/ makes of one.
use neptunus.Base.{
  ℕ, ◌+◌, ◌<◌, ◌≡◌, ◌≢◌, refl, sym, String, Bool, true, false, ◌||◌, some, List, [], ◌∷◌, ◌++◌,
  Result, ok, err, length, ltb, ==_iff, string_comparable, arith, if◌then◌else◌,
}
use neptunus.Base.Int.{pos}
use neptunus.Core.Fields.{Error}
use neptunus.Core.Tracker.{calls, int32_sign}
use neptunus.Core.Event.Sharing.{finish_all}
use neptunus.Convert.{Library, text, err_range, any_to_time, epoch_number}
use neptunus.Processors.Converter.{
  ConversionParams, Values, from_label, from_id, to_integer, to_label, convert_text, convert_all,
}
use neptunus.Processors.Converter.Ranges.{IsWrapping, convert_text-ioor}
use neptunus.Processors.Converter.Frame.{convert_all-frame}
use neptunus.Processors.Parsing.{Parser, Parsing, merge, no_source, parse_event}
use neptunus.Processors.Parsing.Hooks.{parse_event-hooks}
use neptunus.Tests.Events.{text_body, message, one_holder}
use neptunus.Tests.Numbers.{digits}

abbrev wrapped : Error
wrapped = "strconv: value out of range"

-- Every text is out of range.
abbrev strict : Library
strict = record digits {
  parse_int = λ s. err wrapped;
  parse_uint = λ s. err wrapped;
  parse_float = λ s. err wrapped;
  parse_bool = λ s. err wrapped;
  parse_duration = λ s. err wrapped;
  parse_time = λ s layout. err wrapped;
}

no_sentinel :
    {A : Type 0} (e : Error) → ◌≡◌ {A = Result Error A} (err wrapped) (err e) → e ≢ err_range
no_sentinel e h k = let q = (==_iff wrapped err_range).1 in cc

either :
    {A : Type 0} (b : Bool) (e : Error)
    → ◌≡◌ {A = Result Error A} (if b then err wrapped else err wrapped) (err e)
    → e ≢ err_range
either true e = no_sentinel e
either false e = no_sentinel e

strict-IsWrapping : IsWrapping strict
unfolding any_to_time epoch_number
strict-IsWrapping = record {
  ints = λ s e. no_sentinel e;
  uints = λ s e. no_sentinel e;
  floats = λ s e. no_sentinel e;
  bools = λ s e. no_sentinel e;
  durations = λ s e. no_sentinel e;
  times = λ s layout e. either _ e;
}

abbrev labelled : ConversionParams
labelled = record { from = from_label; to = to_integer; path = "host"; tlyt = ""; ioor = true }

abbrev renamed : ConversionParams
renamed = record { from = from_id; to = to_label; path = "name"; tlyt = ""; ioor = false }

abbrev values : Values text_body strict
values = record {
  of_field = λ s. text s;
  to_field = λ v. "value";
  time_of = λ n. pos n;
  of_time = λ t. 0;
  zero_time = pos 0;
  uuid_text = λ n. "uuid";
}

convert_text-ioor_example :
    convert_text text_body strict values "many" "label" (record labelled { ioor = true }) message
    ≡ convert_text text_body strict values "many" "label" (record labelled { ioor = false }) message
convert_text-ioor_example =
    convert_text-ioor text_body strict values strict-IsWrapping "many" "label" labelled message

convert_all-frame_example :
    let r = convert_all text_body strict values (labelled ∷ renamed ∷ []) false message in
    (r.0.uuid ≡ message.uuid)
    × (r.0.tags ≡ message.tags)
    × (r.0.tracker ≡ message.tracker)
    × (n : ℕ) × (length r.0.errors ≡ length message.errors + n)
    × (r.1 ≡ (false || ltb 0 n))
convert_all-frame_example =
    convert_all-frame text_body strict values (labelled ∷ renamed ∷ []) false message

-- A parser that makes two events of every text.
abbrev twice : Parsing text_body
twice = record {
  Bytes = String;
  bytes_of = λ s. some s;
  id_of = λ s. some s;
  parse = λ s key. ok (s ∷ key ∷ []);
}

abbrev merging : Parser
merging = record {
  behaviour = merge;
  from = "log";
  to = ".";
  drop_origin = true;
  ider = record { source = no_source; path = "" };
}

ok_field : {A : Type 0} {x y : List A} → ◌≡◌ {A = Result Error (List A)} (ok x) (ok y) → x ≡ y
ok_field h = cc

parse_event-hooks_example :
    (finish_all
      ((parse_event text_body twice merging (λ n. n) message (one_holder ∷ [])).0.out
        ++ (parse_event text_body twice merging (λ n. n) message (one_holder ∷ [])).0.drop)
      (parse_event text_body twice merging (λ n. n) message (one_holder ∷ [])).1).1
    ≡ calls (5 ∷ [])
parse_event-hooks_example =
    parse_event-hooks text_body twice merging (λ n. n) message (one_holder ∷ []) 0 one_holder refl
      refl refl (λ field donors h. two field donors h)
  where
    two :
        (field : String) (donors : List String)
        → ◌≡◌ {A = Result Error (List String)} (ok (field ∷ "in" ∷ [])) (ok donors)
        → length donors + 1 < int32_sign
    two field donors h = let q = ok_field h in rw (sym q) (omega arith)
