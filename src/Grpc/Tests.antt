-- ===== src/Grpc/Tests.antt =====
-- The gRPC methods on the requests of Http/Tests.
use shorty.Base.{str, ◌≡◌, refl, false, some, [], ◌∷◌}
use shorty.Memory.{memory_storage}
use shorty.Generators.Tests.{counting}
use shorty.Buffer.{new_flusher}
use shorty.Http.Handlers.{handle_resolve, handle_shorten_plain}
use shorty.Http.Handlers.Answers.{client_status}
use shorty.Http.Tests.{
  net_write, encoder, service, parse, library, request, user, context, world, new_v4, body_read,
  context_complete,
}
use shorty.Grpc.{grpc_resolve, grpc_shorten, grpc_delete_batch}
use shorty.Grpc.Agreement.{
  resolved_status, resolve_transports, shortened_status, shorten_transports, deleted_code,
  grpc_delete_batch-code,
}

resolve_transports_example :
    (client_status net_write encoder
        (str "")
        (handle_resolve
          (memory_storage new_v4)
          counting
          service
          parse
          library
          context
          request
          world).0
      ≡ some (resolved_status (grpc_resolve (memory_storage new_v4) context (str "/01") world).0))
    × ((handle_resolve
          (memory_storage new_v4)
          counting
          service
          parse
          library
          context
          request
          world).1
        ≡ (grpc_resolve (memory_storage new_v4) context (str "/01") world).1)
resolve_transports_example =
    resolve_transports net_write encoder (str "") (memory_storage new_v4) counting service parse
      library context request world

shorten_transports_example :
    (client_status net_write encoder
        (str "")
        (handle_shorten_plain
          (memory_storage new_v4)
          counting
          service
          parse
          library
          context
          request
          world).0
      ≡ some (
          shortened_status
            (grpc_shorten
              (memory_storage new_v4)
              counting
              service
              parse
              context
              (str "01")
              world).0))
    × ((handle_shorten_plain
          (memory_storage new_v4)
          counting
          service
          parse
          library
          context
          request
          world).1
        ≡ (grpc_shorten (memory_storage new_v4) counting service parse context (str "01") world).1)
shorten_transports_example =
    shorten_transports net_write encoder (str "") (memory_storage new_v4) counting service parse
      library context request world (str "01") body_read

open_queue : world.flusher.shutdown ≡ false
unfolding new_flusher
open_queue = refl

grpc_delete_batch-code_case :
    (grpc_delete_batch 7 context (str "01" ∷ []) world).0.1 ≡ deleted_code user (str "01" ∷ [])
grpc_delete_batch-code_case =
    grpc_delete_batch-code 7 context world user (str "r") (str "01" ∷ []) context_complete
      open_queue
