-- ===== src/Spillover/Tests.antt =====
-- Concrete runs of pkg/spillover/spillover.go.
use observe_x.Prelude.{some, [], ◌≡◌, ◌≢◌, ◌↔◌, false, true, refl}
use observe_x.Prelude.Text.{Text, codes}
use observe_x.Retention.{pos}
use observe_x.Spillover.{
  Spillover, no_stats, Message, Codec, ack, ok, with_defaults, sanitise, push, handle,
}
use observe_x.Spillover.Routing.{is_subject, push-handle}

abbrev plain : Codec Text
plain = record { marshal = some; unmarshal = some }

abbrev started : Spillover
started = record {
  cfg = with_defaults (record {
    url = codes "nats://nats:4222";
    stream_name = [];
    max_age = pos 0;
    max_bytes = pos 0;
  });
  counters = no_stats;
  drained = 0;
  close_once = false;
}

push-handle_example :
    (msg : Message) × ((push plain true (some started) (codes "a.b") (codes "{}")).1 ≡ ok msg)
    × ((handle plain started msg).1 ≡ (some (sanitise (codes "a.b"), codes "{}"), ack))
    × ((sanitise (codes "a.b") ≡ codes "a.b")
        ↔ ((is_subject (codes "a.b") ≡ true) × (codes "a.b" ≢ [])))
push-handle_example =
    push-handle plain started started (codes "a.b") (codes "{}") (codes "{}") refl refl

-- Two tenants with one subject.
one_subject : sanitise (codes "a.b") ≡ sanitise (codes "a_b")
unfolding sanitise
one_subject = refl
