-- ===== src/Status.antt =====
-- internal/services/status/status.go.
use shorty.Base.{Option, none, some}
use shorty.Errors.{Err, Result, ok, err, join, status_err, status_storage_error}
use shorty.Model.{Stats, Storage}

abbrev joined : Option Err → Option Err
joined none = none
joined (some e) = some (join (status_err status_storage_error) e)

abbrev joined_stats : Result Stats → Result Stats
joined_stats (ok s) = ok s
joined_stats (err e) = err (join (status_err status_storage_error) e)

module _ {S : Type 0} (st : Storage S) where
  unfoldable pub ping : S → Option Err × S
  ping s = let (e, s') = st.ping s in (joined e, s')

  unfoldable pub stats : S → Result Stats × S
  stats s = let (r, s') = st.stats s in (joined_stats r, s')
