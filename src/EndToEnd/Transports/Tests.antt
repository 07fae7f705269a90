-- ===== src/EndToEnd/Transports/Tests.antt =====
-- A call of Shorten and a GET at concrete parts, over the in-memory storage.
use shorty.Base.{str, ◌≡◌, refl, [], ◌∷◌, length, str_eq}
use shorty.Errors.{ok}
use shorty.Generators.Tests.{counting-IsIntn}
use shorty.Shortener.{ParsedUrl}
use shorty.Http.Writer.{set_header, write_header}
use shorty.Http.Replies.{run}
use shorty.Http.Tests.{new_v4, world}
use shorty.Http.Server.{wrapped, serve_http}
use shorty.Grpc.Server.{serve_call}
use shorty.Grpc.Server.Shortening.{shortening}
use shorty.Links.Stores.{memory_view, memory_storage-LinkStore}
use shorty.EndToEnd.Requests.{IsGet}
use shorty.Grpc.Server.Tests.{asks_stats, accepting, shorten_answered}
use shorty.EndToEnd.Lifecycle.Tests.{parts, fetch}
use shorty.EndToEnd.Transports.{over_services, grpc_link_followed}

fetch-IsGet : IsGet (over_services accepting parts) fetch (str "01")
unfolding str_eq
fetch-IsGet = record { found = refl; at = refl }

grpc_link_followed_example :
    (u : ParsedUrl) × (accepting.parse (str "https://x") ≡ ok u)
    × (length (str "01") ≡ 2)
    × ((serve_http
          (over_services accepting parts)
          fetch
          (serve_call accepting (shortening asks_stats (str "https://x")) world 0).1
          5).0
        ≡ wrapped (run (set_header (str "Location") u.text ∷ write_header 307 ∷ [])))
grpc_link_followed_example =
    grpc_link_followed accepting parts memory_view (memory_storage-LinkStore new_v4) asks_stats
      (str "https://x") (str "01") world 0 5 fetch counting-IsIntn (λ n. (n ∷ [], refl))
      shorten_answered fetch-IsGet
