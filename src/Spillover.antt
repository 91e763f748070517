-- ===== src/Spillover.antt =====
-- pkg/spillover/spillover.go. The connection to NATS and its stream are not modelled: what each call to them returns
-- is an argument, and a published message is the result's. `S` is the type of signals; encoding/json is an argument.
pub mod Routing
mod Tests
use observe_x.Prelude.{
  ℕ, zero, suc, ◌-◌, ◌*◌, Bool, true, false, ◌&&◌, ◌||◌, Option, none, some, List, [], ◌∷◌, ◌++◌,
  length, drop, take, leb, ◌==◌, if◌then◌else◌,
}
use observe_x.Prelude.Text.{Text, codes, text_eq, is_letter, is_digit}
use observe_x.Retention.{ℤ, pos, is_positive}

-- Durations are nanoseconds.
pub record Options : Type 0 where
  pub url : Text
  pub stream_name : Text
  pub max_age : ℤ
  pub max_bytes : ℤ

-- withDefaults.
unfoldable pub with_defaults : Options → Options
unfolding text_eq is_positive
with_defaults o = record {
  url = o.url;
  stream_name = if text_eq o.stream_name [] then codes "OBSERVEX_SPILLOVER" else o.stream_name;
  max_age = if is_positive o.max_age then o.max_age else pos 3600000000000;
  max_bytes = if is_positive o.max_bytes then o.max_bytes else pos 1073741824;
}

pub record Stats : Type 0 where
  pub publish_ok : ℕ
  pub publish_err : ℕ
  pub consume_ok : ℕ
  pub consume_err : ℕ

pub record Spillover : Type 0 where
  pub cfg : Options
  pub counters : Stats
  pub drained : ℕ
  pub close_once : Bool

abbrev pub no_stats : Stats
no_stats = record { publish_ok = 0; publish_err = 0; consume_ok = 0; consume_err = 0 }

pub data Error : Type 0 where
  disabled connect_failed init_failed stream_failed marshal_failed publish_failed : Error

pub data Result {ℓ} (A : Type ℓ) : Type ℓ where
  ok : A → Result A
  err : Error → Result A

-- New; no handle is the nil pointer. The tests say whether nats.Connect, jetstream.New and CreateOrUpdateStream succeed.
unfoldable pub new : Options → Bool → Bool → Bool → Result (Option Spillover)
unfolding with_defaults text_eq
new o connects starts streams =
    if text_eq o.url []
    then ok none
    else if connects
    then (if starts
        then (if streams
            then ok (
                some (record {
                  cfg = with_defaults o;
                  counters = no_stats;
                  drained = 0;
                  close_once = false;
                }))
            else err stream_failed)
        else err init_failed)
    else err connect_failed

abbrev pub is_subject_byte : ℕ → Bool
is_subject_byte c = is_letter c || (is_digit c || (c == b'-' || c == b'_'))

-- The loop of sanitise.
unfoldable pub replace_bytes : Text → Text
replace_bytes [] = []
replace_bytes (c ∷ cs) = (if is_subject_byte c then c else b'_') ∷ replace_bytes cs

-- sanitise.
unfoldable pub sanitise : Text → Text
unfolding replace_bytes
sanitise s = elim (replace_bytes s) [ [] ↦ codes "anon" | c ∷ cs ↦ c ∷ cs ]

-- stripPrefix.
unfoldable pub strip_prefix : Text → Text → Text
unfolding text_eq
strip_prefix s p =
    if leb (length p) (length s) && text_eq (take (length p) s) p then drop (length p) s else s

abbrev pub subject_prefix : Text
subject_prefix = codes "observex.spillover."

pub record Message : Type 0 where
  pub subject : Text
  pub payload : Text

pub record Codec (S : Type 0) : Type 0 where
  pub marshal : S → Option Text
  pub unmarshal : Text → Option S

pub data Answer : Type 0 where
  ack term : Answer

unfoldable pub stats : Option Spillover → Stats
stats none = no_stats
stats (some s) = s.counters

unfoldable pub close : Option Spillover → Option Spillover
close none = none
close (some s) =
    some (if s.close_once then s else record s { drained = suc s.drained; close_once = true })

module _ {S : Type 0} (codec : Codec S) where
  -- Push: the handle after it, the message if one is published, and the error if there is one. `accepted` is whether
  -- Publish succeeds.
  unfoldable pub push : Bool → Option Spillover → Text → S → Option Spillover × Result Message
  push accepted none tenant_id sig = (none, err disabled)
  push accepted (some s) tenant_id sig = elim (codec.marshal sig) [
    | none ↦ (some s, err marshal_failed)
    | some payload ↦ elim accepted [
      | true ↦ (
        some (record s { counters = record s.counters { publish_ok = suc s.counters.publish_ok } }),
        ok (record { subject = subject_prefix ++ sanitise tenant_id; payload = payload }),
      )
      | false ↦ (
        some (record s {
          counters = record s.counters { publish_err = suc s.counters.publish_err };
        }),
        err publish_failed,
      )
    ]
  ]

  -- The callback of Consume: the handle after it, the call of `route` if it makes one, and its answer to the stream.
  unfoldable pub handle : Spillover → Message → Spillover × (Option (Text × S) × Answer)
  handle s msg = elim (codec.unmarshal msg.payload) [
    | none ↦ (
      record s { counters = record s.counters { consume_err = suc s.counters.consume_err } },
      (none, term),
    )
    | some sig ↦ (
      record s { counters = record s.counters { consume_ok = suc s.counters.consume_ok } },
      (some (strip_prefix msg.subject subject_prefix, sig), ack),
    )
  ]
