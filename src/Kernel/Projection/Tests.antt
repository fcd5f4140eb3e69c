-- ===== src/Kernel/Projection/Tests.antt =====
-- A read model that counts orders, over a batch whose second event its projection throws at.
use bounda.Prelude.{ℕ, ◌≤◌, ◌≡◌, refl, String, true, false, none, List, [], ◌∷◌, arith}
use bounda.Prelude.Tests.{string_eq}
use bounda.Prelude.Dict.{get}
use bounda.Kernel.Delivery.{Claiming, Processed, failed, deliver}
use bounda.Contracts.Events.{StoredEvent}
use bounda.Kernel.InOrder.{qualified_event_type}
use bounda.Kernel.Projection.{ReadModel, deliver_projected, process, transaction}
use bounda.Kernel.Delivery.Advance.{Guards, Advances, deliver-Advances}
use bounda.Kernel.Projection.Subscriber.{Hosting, transaction-Guards}
use bounda.Kernel.Projection.Fixture.{log, count_orders, counter, read}
use bounda.Kernel.Projection.Once.{replay}
use bounda.Kernel.Projection.Delivered.{AppliedOnce, Keeps, deliver_projected-AppliedOnce}

counter-AppliedOnce :
    AppliedOnce count_orders
      (("order.Placed", "count" ∷ []) ∷ [])
      (λ done events. false)
      (λ s wait. true)
      (λ s. none)
      (λ e. "e")
      (λ s. s)
      0
      log
      (omega arith, (omega arith, (omega arith, tt)))
      counter
unfolding AppliedOnce replay
counter-AppliedOnce = refl

nobody_else :
    (s : ReadModel ℕ)
    → Keeps count_orders
        (("order.Placed", "count" ∷ []) ∷ [])
        (λ done events. false)
        (λ s wait. true)
        (λ s. none)
        (λ e. "e")
        (λ s. s)
        0
        log
        (omega arith, (omega arith, (omega arith, tt)))
        s
        s
unfolding Keeps
nobody_else s applied = (applied, omega arith)

-- The event before the one that failed went through, and nothing of the one that failed is left.
salvaged_first :
    deliver_projected count_orders
      (("order.Placed", "count" ∷ []) ∷ [])
      (λ done events. false)
      (λ s wait. true)
      (λ s. none)
      (λ e. "e")
      (λ s. s)
      read
      true
      counter
    ≡ (
      record { position = 2; rows = 1 },
      failed (record { position = 5; event_id = "b"; event_type = "Placed"; message = "e" }),
    )
unfolding deliver_projected deliver get qualified_event_type
salvaged_first = refl

deliver_projected-AppliedOnce_example :
    let t =
      (deliver_projected count_orders
        (("order.Placed", "count" ∷ []) ∷ [])
        (λ done events. false)
        (λ s wait. true)
        (λ s. none)
        (λ e. "e")
        (λ s. s)
        read
        true
        counter).0 in
    AppliedOnce count_orders
      (("order.Placed", "count" ∷ []) ∷ [])
      (λ done events. false)
      (λ s wait. true)
      (λ s. none)
      (λ e. "e")
      (λ s. s)
      0
      log
      (omega arith, (omega arith, (omega arith, tt)))
      t
    × (0 ≤ t.position)
deliver_projected-AppliedOnce_example =
    deliver_projected-AppliedOnce count_orders (("order.Placed", "count" ∷ []) ∷ [])
      (λ done events. false) (λ s wait. true) (λ s. none) (λ e. "e") (λ s. s) 0 log
      (omega arith, (omega arith, (omega arith, tt))) nobody_else read true counter
      (λ p. (10, refl)) counter-AppliedOnce

abbrev host : Hosting ℕ String String String
host = record {
  project = count_orders;
  by_event = ("order.Placed", "count" ∷ []) ∷ [];
  out_of_time = λ done events. false;
  acquires = λ s wait. true;
  commit_fails = λ s. none;
  message = λ e. "e";
  meanwhile = λ s. s;
  name = "projection:orders";
}

abbrev claim : Claiming (ReadModel ℕ)
claim = transaction host.project host.by_event host.out_of_time host.acquires host.commit_fails

abbrev handle : ReadModel ℕ → List (StoredEvent String String) → ReadModel ℕ × Processed
handle = process host.project host.by_event host.out_of_time

claim-Guards : Guards claim handle host.meanwhile
claim-Guards = transaction-Guards host (λ s. omega arith)

deliver-Advances_example :
    Advances claim handle host.message host.meanwhile claim-Guards read counter
      (deliver claim handle host.message host.meanwhile read true counter)
unfolding transaction
deliver-Advances_example =
    deliver-Advances claim handle host.message host.meanwhile claim-Guards read true counter
      (omega arith, (omega arith, (omega arith, tt)))
