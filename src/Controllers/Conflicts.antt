-- ===== src/Controllers/Conflicts.antt =====
-- How the generic controller ends a pass (operator/reconciler/reconciler.go).
use k8up.Prelude.{ℕ, ◌≢◌, Option, none, some}
use k8up.Job.{found}
use k8up.Controllers.{
  Reply, Failure, Reconciler, conflict, other, reconcile, retry_conflict, provision_or_not,
}

no_conflict :
    (n : ℕ) (e : Option Failure)
    → (retry_conflict (record { requeue_after = n; error = e })).error ≢ some conflict
no_conflict n none h = cc
no_conflict n (some conflict) h = cc
no_conflict n (some other) h = cc

retried : (r : Reply) → (retry_conflict r).error ≢ some conflict
retried r = no_conflict r.requeue_after r.error

module _ {ℓ κ} {T : Type ℓ} {S : Type κ} where
  -- A conflict in Provision or Deprovision never comes out of Reconcile as an error.
  pub reconcile_hides_conflicts :
      (r : Reconciler T S) (o : T) (e : Failure) (s : S)
      → (reconcile r (found o) e s).0.error ≢ some conflict
  unfolding reconcile
  reconcile_hides_conflicts r o e s = retried (provision_or_not r o s).0
