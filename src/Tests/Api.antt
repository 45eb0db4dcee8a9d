-- ===== src/Tests/Api.antt =====
-- The lease handlers on the pool of the tests.
use droidpool.Prelude.{◌<◌, ◌≤◌, ◌+◌, arith, ◌≡◌, refl, ◌⊎◌, [], some, codes, text_eq, find?}
use droidpool.Pool.Time.{at, unix}
use droidpool.Pool.Lease.{AtInstant}
use droidpool.Store.Tables.{has_lease}
use droidpool.Api.Leases.{new_lease, Web, handle_claim, handle_release}
use droidpool.Api.Answers.{
  new_lease-capped, IsGone, IsReleased, handle_release-answers, handle_claim-status, web_over,
  claim_status,
}
use droidpool.Tests.Data.{now, old_lease, pool, server, request}
use droidpool.Tests.Store.{pool-IsConsistent, is_new}

abbrev web : Web
web = web_over pool [] []

handle_claim-status_example :
    ((handle_claim server now (codes "b") (some request) web).0.status
      ≡ claim_status server request pool)
    × ((claim_status server request pool < 300)
        ⊎ ((handle_claim server now (codes "b") (some request) web).1 ≡ web))
handle_claim-status_example =
    handle_claim-status server now (codes "b") request pool [] [] pool-IsConsistent is_new refl refl

has_old : find? (has_lease (codes "a")) web.leases ≡ some old_lease
unfolding text_eq
has_old = refl

handle_release-answers_example :
    let x = handle_release server now (codes "a") web in
    IsGone (codes "a") pool x web ⊎ IsReleased (codes "a") (unix now) pool server.resets [] [] x
handle_release-answers_example =
    handle_release-answers server now (codes "a") pool [] [] (unfold unix in omega arith)

new_lease-capped_example :
    AtInstant (new_lease server (at 7) (codes "b") request).expires_at (λ e. e ≤ 7 + server.max_ttl)
new_lease-capped_example = new_lease-capped server 7 (codes "b") request (omega arith)
