-- ===== src/Tests/Queries.antt =====
-- What the users of the example read.
use hau_cex.Common.{ℕ, suc, ◌≡◌, refl, ◌*◌, List, none, some, String, length, map}
use mathlib.Core.List.{Perm}
use hau_cex.Database.Schema.{Order}
use hau_cex.Pagination.Cover.{IsOrdered}
use hau_cex.Pagination.Sorted.{follow}
use hau_cex.Orders.Query.{history_rows, to_response}
use hau_cex.Orders.Query.History.{page_at, history_pages_cover}
use hau_cex.Testing.{example_platform, example_db}

abbrev created : Order → ℕ
created o = o.id * 1000

abbrev to_text : ℕ → String
to_text t = "2026-01-01T00:00:00.000Z"

history_pages_cover_example :
    let own = history_rows example_platform created created to_text 1 none example_db in
    (sorted : List Order) × Perm sorted own
    × IsOrdered (λ o. o.id) created sorted
    × (follow
          (λ o. o.id)
          created
          (suc (length own))
          (page_at example_platform created created to_text 1 none example_db 1)
          none
        ≡ some (
            map
              (to_response example_platform created created to_text example_db.trading_pairs)
              sorted))
history_pages_cover_example =
    history_pages_cover example_platform created created to_text 1 none example_db 0
      ((refl, tt), (tt, tt)) (refl, (refl, tt))
