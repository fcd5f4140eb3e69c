-- ===== src/Kernel/Aggregate/Snapshotting/Tests.antt =====
-- The first snapshot of a meter's stream, which grew while it was taken.
use bounda.Prelude.{ℕ, refl, true, false, []}
use bounda.Prelude.Dict.{get}
use bounda.Memory.Snapshots
use bounda.Kernel.Aggregate.Codec.{fold_value}
use bounda.Kernel.Aggregate.Loading.{Loader}
use bounda.Kernel.Aggregate.Snapshotting.{snapshot}
use bounda.Kernel.Aggregate.Snapshotting.Trust.{KeptTrusted, snapshot-KeptTrusted}
use bounda.Kernel.Aggregate.Fixture.{
  only, only-IsFaithful, at_one, settings, meter, history, loads, shares, loads-Follows,
}

abbrev nothing_kept : Loader ℕ
nothing_kept = record { snapshots = []; credits = [] }

nothing-KeptTrusted :
    KeptTrusted shares
      (only (fold_value at_one))
      (only-IsFaithful (fold_value at_one))
      false
      (λ n. "n")
      (λ e. "e")
      (λ n. loads)
      (λ s. s)
      (λ h. true)
      meter
      settings
      0
      "1"
      history
      []
      (history 0)
unfolding KeptTrusted Snapshots.get_snapshot get
nothing-KeptTrusted kept there same = cc

snapshot-KeptTrusted_example :
    KeptTrusted shares
      (only (fold_value at_one))
      (only-IsFaithful (fold_value at_one))
      false
      (λ n. "n")
      (λ e. "e")
      (λ n. loads)
      (λ s. s)
      (λ h. true)
      meter
      settings
      0
      "1"
      history
      (snapshot shares
        (only (fold_value at_one))
        false
        (λ n. "n")
        (λ e. "e")
        (λ n. loads)
        (λ s. s)
        (λ h. true)
        meter
        settings
        0
        nothing_kept
        "1").0.snapshots
      (history 1)
snapshot-KeptTrusted_example =
    snapshot-KeptTrusted shares (only (fold_value at_one)) (only-IsFaithful (fold_value at_one))
      false (λ n. "n") (λ e. "e") (λ n. loads) (λ s. s) (λ h. true) meter settings 0 "1" history
      loads-Follows nothing_kept refl nothing-KeptTrusted
