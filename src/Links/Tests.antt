-- ===== src/Links/Tests.antt =====
-- The storages of links at concrete inputs.
use shorty.Base.{Str, str, arith, ◌≡◌, refl, true, some, ◌∷◌, length, str_eq, lookup}
use shorty.Errors.{
  ok, err, model_err, not_found, deleted, join, shortener_err, storage_failed, returns,
}
use shorty.Memory.{memory_storage}
use shorty.File.{file_storage}
use shorty.Buffer.{new_flusher}
use shorty.Generators.Tests.{counting, counting-IsIntn}
use shorty.Resolver.{resolve}
use shorty.Shortener.{ParsedUrl, World, shorten, get_served_url, flusher_config}
use shorty.EndToEnd.Tests.{service, parse, user, world, one_taken, shorten_second, new_v4}
use shorty.Database.{database_storage, database_get}
use shorty.Database.Table.{FitsTable, row_view, IsUserId}
use shorty.Database.Deleted.{deleted_url_refused}
use shorty.Database.OneRow.{Table, rows, one_row, one_row-IsTable}
use shorty.Links.{live, LinkStore, LinkStoreFor}
use shorty.Links.Clients.{shorten_link, links_kept}
use shorty.Links.Stores.{memory_view, file_view, storages-LinkStore, memory_storage-LinkStore}

storages-LinkStore_example :
    LinkStore (memory_storage new_v4) memory_view
    × LinkStore (file_storage new_v4) file_view
    × LinkStoreFor FitsTable (database_storage one_row 7) (row_view rows)
storages-LinkStore_example = storages-LinkStore new_v4 one_row rows 7 one_row-IsTable

taken_is_live : memory_view one_taken (str "01") ≡ some (live (str "https://y"))
unfolding lookup str_eq
taken_is_live = refl

shorten_link_example :
    (u : ParsedUrl) × (path : Str) × (parse (str "https://x") ≡ ok u)
    × (str "https://sho.rt/23" ≡ get_served_url service path)
    × (length path ≡ 2)
    × ((resolve
          (memory_storage new_v4).get
          (b'/' ∷ path)
          (shorten
            (memory_storage new_v4)
            counting
            service
            parse
            user
            (str "https://x")
            (world one_taken)).1.store).0
        ≡ returns (ok u.text))
shorten_link_example =
    shorten_link (λ url. Unit {0}) (memory_storage new_v4) memory_view
      (memory_storage-LinkStore new_v4) counting service parse user (str "https://x")
      (str "https://sho.rt/23") (world one_taken) counting-IsIntn (λ u path parses long letters. tt)
      shorten_second

links_kept_case :
    memory_view
      (shorten
        (memory_storage new_v4)
        counting
        service
        parse
        user
        (str "https://x")
        (world one_taken)).1.store
      (str "01")
    ≡ some (live (str "https://y"))
links_kept_case =
    links_kept (memory_storage new_v4) memory_view (memory_storage-LinkStore new_v4) counting
      service parse user (str "https://x") (str "01") (str "https://y") (world one_taken)
      taken_is_live

user_is_id : IsUserId user.id
user_is_id = ((λ e. cc e), omega arith, refl)

-- The table has the URL, deleted.
abbrev after_deletion : World Table
after_deletion = record {
  store = some (str "ab", record { orig = str "https://x"; deleted = true });
  flusher = new_flusher flusher_config;
  draws = 0;
}

deleted_url_refused_example :
    ((shorten
        (database_storage one_row 7)
        counting
        service
        parse
        user
        (str "https://x")
        after_deletion).0
      ≡ (str "", some (join (shortener_err storage_failed) (model_err not_found))))
    × ((database_get one_row (str "ab") after_deletion.store).0 ≡ err (model_err deleted))
unfolding str_eq shorty.Generators.rand_string
deleted_url_refused_example =
    deleted_url_refused one_row rows one_row-IsTable 7 counting service parse user (str "https://x")
      (str "ab") (record { scheme = str "https"; text = str "https://x" }) after_deletion
      counting-IsIntn (omega arith) (omega arith) user_is_id refl refl refl refl refl
