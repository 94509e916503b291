-- ===== src/Proxy/System/Preserved.antt =====
-- src/proxy/mod.rs, src/maintenance.rs and src/quarantine/: what holds of the daemon, and that each
-- step keeps it.
use mathlib.Core.Path.{subst}
use propylea.Proxy.System.{
  Connection, System, accept_connection, answer_on, booted, decide_on, drop_connection, persist,
  tidy, with_shield,
}
use propylea.Proxy.System.Kept.{IsDayBan, IsKept, decide-IsKept, respond-IsKept}
use propylea.Proxy.System.Due.{called_for, handle-called_for, respond-queue}
use propylea.Proxy.{Decision, Live, ProxyRequest, ProxyState}
use propylea.Proxy.Serve.{Clock, Network}
use propylea.Proxy.Forwarded.{IsHandedOn, handed_on, handle-IsHandedOn}
use propylea.Router.{UpstreamTarget}
use propylea.Http.{HeaderApi}
use propylea.Maintenance.{deregister_connection, register_connection, run_hygiene_pass}
use propylea.Telemetry
use propylea.Telemetry.{total_records}
use propylea.Quarantine.Net.{NetApi}
use propylea.Quarantine.Store.{QuarantineRecord, QuarantineStore, in_memory, record_ban}
use propylea.Quarantine.Store.History
use propylea.Quarantine.Store.History.{
  IsConsistent, Reaches-IsConsistent, Step-IsConsistent, step_record_ban,
}
use propylea.Defense.Shield.{ShieldApi}
use propylea.Prelude.{
  All, List, [], ap, append_assoc, arith, length, length-append, refl, some, sym, ℕ, ◌++◌, ◌+◌, ◌∙◌,
  ◌∷◌, ◌≡◌,
}

All-without {ℓ κ} :
    {A : Type ℓ} (P : A → Type κ) (before after : List A) (a : A)
    → All P (before ++ (a ∷ after))
    → All P (before ++ after)
All-without P [] after a (h, rest) = rest
All-without P (b ∷ before) after a (h, rest) = (h, All-without P before after a rest)

module _ (api : HeaderApi) (net : NetApi) (phylax : ShieldApi net) where
  abbrev Waiting : Type 0
  Waiting = ProxyRequest api net phylax × Decision api net phylax

  -- If the request waits for an upstream, then it is one that may be handed on, as the perimeter was
  -- when this was decided.
  abbrev pub MayWait : ProxyState api net phylax → Waiting → Type 0
  MayWait st (req, decision) =
      (target : UpstreamTarget) (sent : api.HeaderMap)
      → handed_on api net phylax decision ≡ some (target, sent)
      → (now_ms : ℕ) × (live : Live api net phylax) × IsHandedOn api net phylax st req now_ms live
          target sent

  -- The shared state is kept with as many connections open as there are, every request that waits
  -- may wait, and the database is consistent.
  pub record IsSound (st : ProxyState api net phylax) (n : ℕ) (due written : List QuarantineRecord)
      (capacity : ℕ) (s : System api net phylax) : Type 0 where
    pub kept : IsKept api net phylax (length s.connections) n capacity s.live
    pub may_wait : All (MayWait st) s.pending
    pub none_lost : due ≡ written ++ s.live.perimeter.queue
    pub consistent : IsConsistent s.store

  module _ (st : ProxyState api net phylax) (capacity : ℕ) where
    pub booted-IsSound :
        (shield : phylax.State) (store : QuarantineStore)
        → History.Reaches net in_memory store
        → IsSound st 0 [] [] capacity (booted api net phylax capacity shield store)
    unfolding Telemetry.new total_records
    booted-IsSound shield store h = record {
      kept = record {
        open_counted = refl;
        served_counted = refl;
        same_capacity = refl;
        bounded = ground arith;
        day_bans = tt;
      };
      may_wait = tt;
      none_lost = refl;
      consistent = Reaches-IsConsistent net store h;
    }

    pub accept-IsSound :
        (n : ℕ) (due written : List QuarantineRecord) (conn : Connection api net phylax)
        (s : System api net phylax)
        → IsSound st n due written capacity s
        → IsSound st (n + 1) due written capacity (accept_connection api net phylax conn s)
    unfolding accept_connection register_connection
    accept-IsSound n due written conn s h =
        let a = h.kept.open_counted in
        let b = h.kept.served_counted in
        record {
          kept = record {
            open_counted = omega (arith, a);
            served_counted = omega (arith, b);
            same_capacity = h.kept.same_capacity;
            bounded = h.kept.bounded;
            day_bans = h.kept.day_bans;
          };
          may_wait = h.may_wait;
          none_lost = h.none_lost;
          consistent = h.consistent;
        }

    pub drop-IsSound :
        (n : ℕ) (due written : List QuarantineRecord)
        (before after : List (Connection api net phylax)) (conn : Connection api net phylax)
        (s : System api net phylax)
        → s.connections ≡ before ++ (conn ∷ after)
        → IsSound st n due written capacity s
        → IsSound st n due written capacity (drop_connection api net phylax (before ++ after) s)
    unfolding drop_connection deregister_connection
    drop-IsSound n due written before after conn s same h =
        let one_more : length s.connections ≡ length (before ++ after) + 1 =
          ap length same
          ∙ omega (arith, length-append before (conn ∷ after), length-append before after) in
        let a = h.kept.open_counted in
        record {
          kept = record {
            open_counted = omega (arith, a, one_more);
            served_counted = h.kept.served_counted;
            same_capacity = h.kept.same_capacity;
            bounded = h.kept.bounded;
            day_bans = h.kept.day_bans;
          };
          may_wait = h.may_wait;
          none_lost = h.none_lost;
          consistent = h.consistent;
        }

    pub persist-IsSound :
        (n : ℕ) (due written : List QuarantineRecord) (rec : QuarantineRecord)
        (queue : List QuarantineRecord) (s : System api net phylax)
        → s.live.perimeter.queue ≡ rec ∷ queue
        → IsSound st n due written capacity s
        → IsSound st n due (written ++ (rec ∷ [])) capacity (persist api net phylax rec queue s)
    unfolding persist
    persist-IsSound n due written rec queue s same h = record {
      kept = record {
        open_counted = h.kept.open_counted;
        served_counted = h.kept.served_counted;
        same_capacity = h.kept.same_capacity;
        bounded = h.kept.bounded;
        day_bans = (subst (All IsDayBan) same h.kept.day_bans).1;
      };
      may_wait = h.may_wait;
      none_lost =
          h.none_lost ∙ ap (λ q. written ++ q) same ∙ sym (append_assoc written (rec ∷ []) queue);
      consistent =
          Step-IsConsistent net s.store (record_ban rec s.store).1 (step_record_ban rec)
            h.consistent;
    }

    pub tidy-IsSound :
        (n : ℕ) (due written : List QuarantineRecord) (s : System api net phylax)
        → IsSound st n due written capacity s
        → IsSound st n due written capacity (tidy api net phylax s)
    unfolding tidy run_hygiene_pass
    tidy-IsSound n due written s h = record {
      kept = record {
        open_counted = h.kept.open_counted;
        served_counted = h.kept.served_counted;
        same_capacity = h.kept.same_capacity;
        bounded = h.kept.bounded;
        day_bans = h.kept.day_bans;
      };
      may_wait = h.may_wait;
      none_lost = h.none_lost;
      consistent = h.consistent;
    }

    pub decide-IsSound :
        (n : ℕ) (due written : List QuarantineRecord) (req : ProxyRequest api net phylax)
        (clock : Clock) (s : System api net phylax)
        → IsSound st n due written capacity s
        → IsSound st n
            (due ++ called_for api net phylax st req clock.received_ms)
            written
            capacity
            (decide_on api net phylax st req clock s)
    unfolding decide_on
    decide-IsSound n due written req clock s h = record {
      kept =
          decide-IsKept api net phylax (length s.connections) n capacity st req clock s.live h.kept;
      may_wait = (
        λ target sent handed. (
          clock.received_ms,
          s.live,
          handle-IsHandedOn api net phylax st req clock.received_ms clock.decided_us s.live target
              sent handed,
        ),
        h.may_wait,
      );
      none_lost =
          ap (λ l. l ++ called_for api net phylax st req clock.received_ms) h.none_lost
          ∙ append_assoc written s.live.perimeter.queue
              (called_for api net phylax st req clock.received_ms)
          ∙ ap (λ q. written ++ q)
              (sym (
                handle-called_for api net phylax st req clock.received_ms clock.decided_us s.live));
      consistent = h.consistent;
    }

    pub left_waiting :
        (n : ℕ) (due written : List QuarantineRecord) (before after : List Waiting) (w : Waiting)
        (s : System api net phylax)
        → s.pending ≡ before ++ (w ∷ after)
        → IsSound st n due written capacity s
        → All (MayWait st) (before ++ after)
    left_waiting n due written before after w s same h =
        All-without (MayWait st) before after w (subst (All (MayWait st)) same h.may_wait)

    pub answer-IsSound :
        (n : ℕ) (due written : List QuarantineRecord) (nw : Network api net phylax)
        (before after : List Waiting) (w : Waiting) (clock : Clock) (s : System api net phylax)
        → s.pending ≡ before ++ (w ∷ after)
        → IsSound st n due written capacity s
        → IsSound st n due written capacity
            (answer_on api net phylax st nw w (before ++ after) clock s)
    unfolding answer_on
    answer-IsSound n due written nw before after (req, decision) clock s same h = record {
      kept =
          respond-IsKept api net phylax (length s.connections) n capacity st req clock nw decision
            s.live h.kept;
      may_wait = left_waiting n due written before after (req, decision) s same h;
      none_lost =
          h.none_lost
          ∙ ap (λ q. written ++ q)
              (sym (respond-queue api net phylax st req clock nw decision s.live));
      consistent = h.consistent;
    }

    pub shield-IsSound :
        (n : ℕ) (due written : List QuarantineRecord) (shield : phylax.State)
        (s : System api net phylax)
        → IsSound st n due written capacity s
        → IsSound st n due written capacity (with_shield api net phylax shield s)
    shield-IsSound n due written shield s h = record {
      kept = record {
        open_counted = h.kept.open_counted;
        served_counted = h.kept.served_counted;
        same_capacity = h.kept.same_capacity;
        bounded = h.kept.bounded;
        day_bans = h.kept.day_bans;
      };
      may_wait = h.may_wait;
      none_lost = h.none_lost;
      consistent = h.consistent;
    }
