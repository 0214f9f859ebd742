-- ===== src/Scan/Import.antt =====
-- `handleImport` of frontend/src/pages/NetworkScan/NetworkScanPage.tsx. The server that creates the
-- records is a state with a function on it, which may fail.
pub mod Count
use iop.Base.{
  ℕ, suc, ◌+◌, ◌≡◌, refl, ap, ◌∙◌, inl, inr, Bool, true, false, not, ◌&&◌, List, [], ◌∷◌, ◌++◌, map,
  Option, none, some, arith, Text, if◌then◌else◌, nat_beq, filter, includes, text_eq, length, All,
  All-filter, Bool-cases, and-eq-true,
}
use iop.Types.Record.{IpStatus, reserved, Environment}
use iop.Text.Search.{is_empty}
use iop.Scan.Page.{
  Page, ScanRow, is_matched, notify, no_environment, no_hosts, imported, partly_imported,
}

-- The body of `ipRecordsApi.create`. A row's system is any text, see `ScanRow`.
pub record HostCreate : Type 0 where
  pub ip_address : Text
  pub hostname : Option Text
  pub os_type : Text
  pub subnet_id : Option Text
  pub status : IpStatus
  pub environment : Environment
  pub owner : Option Text

-- `s || undefined`
abbrev pub or_undefined : Text → Option Text
or_undefined s = if is_empty s then none else some s

unfoldable pub create_of : Environment → Text → ScanRow → HostCreate
create_of env owner r = record {
  ip_address = r.ip_address;
  hostname = or_undefined r.hostname;
  os_type = r.os_type;
  subnet_id = r.subnet_id;
  status = reserved;
  environment = env;
  owner = or_undefined owner;
}

abbrev pub is_imported : List Text → ScanRow → Bool
is_imported selected_keys r = includes selected_keys r.key && is_matched r

unfoldable pub to_import : Page → List ScanRow
to_import p = filter (is_imported p.selected_keys) p.rows

abbrev pub no_rows : List ScanRow → Bool
no_rows [] = true
no_rows (r ∷ rs) = false

-- What follows the loop.
unfoldable pub finish_import : ℕ → ℕ → Page → Page
finish_import ok ℕ.zero p =
    notify (imported ok)
      (record p { importing = false; rows = []; scan_info = none; selected_keys = [] })
finish_import ok (suc errors) p =
    notify (partly_imported ok (suc errors)) (record p { importing = false })

-- Whether a record was created, and the server after the call.
module _ {S : Type 0} (create : HostCreate → S → Bool × S) where
  -- The loop: the numbers of records created and of calls that failed, and the server.
  unfoldable pub import_rows : Environment → Text → List ScanRow → ℕ → ℕ → S → ℕ × ℕ × S
  import_rows env owner [] ok errors server = (ok, errors, server)
  import_rows env owner (r ∷ rs) ok errors server =
      let (created, server') = create (create_of env owner r) server in
      import_rows env owner rs (if created then ok + 1 else ok)
        (if created then errors else errors + 1) server'

  -- The part behind the check of the environment.
  unfoldable pub import_selected : Environment → Page → S → Page × S
  unfolding import_rows finish_import to_import
  import_selected env p server =
      let chosen : List ScanRow = to_import p in
      let done : ℕ × ℕ × S = import_rows env p.import_owner chosen 0 0 server in
      if no_rows chosen
      then (notify no_hosts p, server)
      else (finish_import done.0 done.1 (record p { importing = true }), done.2)

  unfoldable pub import_with : Option Environment → Page → S → Page × S
  unfolding import_selected
  import_with none p server = (notify no_environment p, server)
  import_with (some env) p server = import_selected env p server

  unfoldable pub handle_import : Page → S → Page × S
  unfolding import_with
  handle_import p server = import_with p.import_env p server

  -- The server after the requests of a list, each whatever became of those before, and the number
  -- of those that created a record.
  unfoldable pub after_requests : List HostCreate → S → S
  after_requests [] server = server
  after_requests (c ∷ cs) server = after_requests cs (create c server).1

  unfoldable pub created_count : List HostCreate → S → ℕ
  created_count [] server = 0
  created_count (c ∷ cs) server =
      (if (create c server).0 then 1 else 0) + created_count cs (create c server).1

  import_rows_lem :
      (env : Environment) (owner : Text) (rs : List ScanRow) (ok errors : ℕ) (server : S)
      → let (made, failed, server') = import_rows env owner rs ok errors server in
        (server' ≡ after_requests (map (create_of env owner) rs) server)
        × (made ≡ ok + created_count (map (create_of env owner) rs) server)
        × (made + failed ≡ ok + errors + length rs)
  unfolding import_rows after_requests created_count
  import_rows_lem env owner [] ok errors server = (refl, omega arith, omega arith)
  import_rows_lem env owner (r ∷ rs) ok errors server =
      let b : Bool = (create (create_of env owner r) server).0 in
      let (same, made, all) =
        import_rows_lem env owner rs (if b then ok + 1 else ok) (if b then errors else errors + 1)
          (create (create_of env owner r) server).1 in
      (same, ground (arith, made), ground (arith, all))

  handle_import_lem :
      (p : Page) (env : Environment) (server : S)
      → p.import_env ≡ some env
      → no_rows (to_import p) ≡ false
      → let done = import_rows env p.import_owner (to_import p) 0 0 server in
        handle_import p server
        ≡ (finish_import done.0 done.1 (record p { importing = true }), done.2)
  unfolding handle_import
  handle_import_lem p env server e h =
      ap (λ (o : Option Environment). import_with o p server) e ∙ rw h

  -- What the rows and the selection are after an import: all gone, or as they were.
  left_after :
      (ok failed : ℕ) (p : Page)
      → ((finish_import ok failed p).rows ≡ (if nat_beq failed 0 then [] else p.rows))
        × ((finish_import ok failed p).selected_keys
            ≡ (if nat_beq failed 0 then [] else p.selected_keys))
        × ((finish_import ok failed p).importing ≡ false)
  unfolding finish_import
  left_after ok ℕ.zero p = (refl, refl, refl)
  left_after ok (suc failed) p = (rw (nonzero failed) refl, rw (nonzero failed) refl, refl)
    where
      nonzero : (n : ℕ) → nat_beq (suc n) 0 ≡ false
      nonzero n = ground arith

  -- With an environment, where a row to import is selected, the requests of exactly the selected
  -- matched rows reach the server in order; of these some fail and the others are the records
  -- created, which the notice counts. If none failed, the rows and the selection are cleared, and
  -- else they stay; in both cases the import has ended.
  pub handle_import-outcome :
      (p : Page) (env : Environment) (server : S)
      → p.import_env ≡ some env
      → no_rows (filter (is_imported p.selected_keys) p.rows) ≡ false
      → let chosen = filter (is_imported p.selected_keys) p.rows in
        let requests = map (create_of env p.import_owner) chosen in
        let done = handle_import p server in
        (failed : ℕ) × (done.1 ≡ after_requests requests server)
        × (created_count requests server + failed ≡ length chosen)
        × (done.0
            ≡ finish_import (created_count requests server) failed (record p { importing = true }))
        × (done.0.rows ≡ (if nat_beq failed 0 then [] else p.rows))
        × (done.0.selected_keys ≡ (if nat_beq failed 0 then [] else p.selected_keys))
        × (done.0.importing ≡ false)
  unfolding to_import
  handle_import-outcome p env server e h =
      let done : ℕ × ℕ × S = import_rows env p.import_owner (to_import p) 0 0 server in
      let (same, made, all) = import_rows_lem env p.import_owner (to_import p) 0 0 server in
      let ends = handle_import_lem p env server e h in
      let counted : done.0
          ≡ created_count (map (create_of env p.import_owner) (to_import p)) server =
        omega (arith, made) in
      let left = left_after done.0 done.1 (record p { importing = true }) in
      (
        done.1,
        ap (λ (r : Page × S). r.1) ends ∙ same,
        omega (arith, made, all),
        ap (λ (r : Page × S). r.0) ends
            ∙ ap (λ (n : ℕ). finish_import n done.1 (record p { importing = true })) counted,
        ap (λ (r : Page × S). r.0.rows) ends ∙ left.0,
        ap (λ (r : Page × S). r.0.selected_keys) ends ∙ left.1,
        ap (λ (r : Page × S). r.0.importing) ends ∙ left.2,
      )
