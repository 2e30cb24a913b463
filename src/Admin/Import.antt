-- ===== src/Admin/Import.antt =====
-- access_admin/src/app_state.cpp: the opening of the database and its replacement by an upload, with
-- sqliteIntegrityOk of access_admin/src/http_utils.cpp and importDatabase of
-- access_admin/src/service/db_service.cpp. Files and SQLite on them are a parameter.
use access_security_system_e.Common.{
  ℕ, ◌≡◌, Bool, true, false, not, Option, none, some, List, ◌++◌, length, ltb, ◌⊎◌, if◌then◌else◌,
  bytes_eq,
}
use access_security_system_e.Common.Text.{codes, c_str}
use access_security_system_e.Audit.{VerifyResult, verified, bad_row, bad_anchor}
use access_security_system_e.Admin.{ServiceResult, ok_result, error_result, note}

-- Files by their names, and a state of the disk.
pub record Disk (D : Type 0) : Type 0 where
  -- PRAGMA integrity_check on a file, as far as it gets; the text of its row
  pub can_open : D → List ℕ → Bool
  pub can_check : D → List ℕ → Bool
  pub check_row : D → List ℕ → Option (List ℕ)
  -- verifyAuditChain on the file with the key; `none` is the exception of a statement that cannot be
  -- prepared, as in a file without the tables of the log
  pub verify_file : D → List ℕ → List ℕ → Option VerifyResult
  -- exists, copy_file with overwrite_existing, and the removal and the writing of a file; false is
  -- an error
  pub file_exists : D → List ℕ → Bool
  pub copy_file : D → List ℕ → List ℕ → D × Bool
  pub write_file : D → List ℕ → List ℕ → D
  pub remove_file : D → List ℕ → D

-- The server: its disk, and whether the store, the log and the engine are there.
pub record Server (D : Type 0) : Type 0 where
  pub disk : D
  pub opened : Bool

-- The end of verifyUploadedAuditChain: true, false with the error's text, or an exception.
pub data Chain : Type 0 where
  chained : Chain
  not_chained : List ℕ → Chain
  chain_thrown : Chain

module _ {D : Type 0} (fs : Disk D) where
  -- sqliteIntegrityOk; `none` is true.
  unfoldable pub integrity_error : D → List ℕ → Option (List ℕ)
  unfolding c_str bytes_eq
  integrity_error d path =
      if not (fs.can_open d path)
      then some (codes "sqlite_open failed")
      else if not (fs.can_check d path)
      then some (codes "prepare integrity_check failed")
      else elim (fs.check_row d path) [
        | none ↦ some (codes "integrity_check: no row")
        | some text ↦
            if bytes_eq (c_str text) (codes "ok")
            then none
            else some (codes "integrity_check: " ++ c_str text)
      ]

  -- verifyUploadedAuditChain; its exception leaves it. The error text of a row's failure is left
  -- out.
  unfoldable pub check_chain : D → List ℕ → List ℕ → Chain
  check_chain d path key =
      let failed = not_chained (codes "verifyAuditChain failed: ") in
      if not (fs.can_open d path)
      then not_chained (codes "sqlite_open(uploaded) failed")
      else elim (fs.verify_file d path key) [
        | none ↦ chain_thrown
        | some r ↦ elim r [ verified ↦ chained | bad_row id e ↦ failed | bad_anchor e ↦ failed ]
      ]

  -- replaceDbFile: an error of the backup is overwritten by the result of the second copy.
  unfoldable pub replace_db_file : D → List ℕ → List ℕ → D × Bool
  replace_db_file d db_path uploaded =
      let (d1, backed) = fs.copy_file d db_path (db_path ++ codes ".bak") in
      let d2 = if fs.file_exists d db_path then d1 else d in fs.copy_file d2 uploaded db_path

  module _ (db_path key : List ℕ) (open_or_create : D → Option D) where
    -- importDbFile: the server, and whether it imported; `none` is an exception of openOrCreate, or
    -- of the verification, which leaves before anything is changed.
    unfoldable pub import_db_file : Server D → List ℕ → Server D × Option Bool
    unfolding integrity_error check_chain replace_db_file
    import_db_file s uploaded = elim (integrity_error s.disk uploaded) [
      | some e ↦ (s, some false)
      | none ↦ elim (check_chain s.disk uploaded key) [
        | not_chained e ↦ (s, some false)
        | chain_thrown ↦ (s, none)
        | chained ↦
            (let (d, replaced) = replace_db_file s.disk db_path uploaded in
              if not replaced
              then (record { disk = d; opened = false }, some false)
              else elim (open_or_create d) [
                | none ↦ (record { disk = d; opened = false }, none)
                | some d' ↦ (record { disk = d'; opened = true }, some true)
              ])
      ]
    ]

    -- importDatabase: the upload goes through a temporary file. The message of a failure ends with
    -- the error's text, which is left out.
    unfoldable pub import_database : ℕ → Server D → List ℕ → Server D × Option ServiceResult
    unfolding import_db_file
    import_database max_upload_bytes s content =
        let tmp = db_path ++ codes ".upload.tmp" in
        let written = record s { disk = fs.write_file s.disk tmp content } in
        let (s1, answer) = import_db_file written tmp in
        let cleaned = record s1 { disk = fs.remove_file s1.disk tmp } in
        if ltb max_upload_bytes (length content)
        then (s, some (error_result "file too large" 413))
        else elim answer [
          | none ↦ (s1, none)
          | some imported ↦ (
            cleaned,
            some (
                if imported
                then ok_result (note "IMPORT OK (integrity + verify passed, DB swapped, reopened)")
                else error_result "IMPORT FAILED: " 400),
          )
        ]

    -- The upload passes SQLite's check and the verification of its log.
    pub record IsGoodUpload (d : D) (uploaded : List ℕ) : Type 0 where
      pub whole : integrity_error d uploaded ≡ none
      pub log_chained : check_chain d uploaded key ≡ chained

    -- The upload fails one of the two, with the error `why`.
    abbrev pub IsBadUpload : D → List ℕ → List ℕ → Type 0
    IsBadUpload d uploaded why =
        (integrity_error d uploaded ≡ some why) ⊎ (check_chain d uploaded key ≡ not_chained why)

    -- The server after the replacement of the database file, with nothing open.
    abbrev pub closed : Server D → List ℕ → Server D
    unfolding replace_db_file
    closed s uploaded = record {
      disk = (replace_db_file s.disk db_path uploaded).0;
      opened = false;
    }

    -- What each answer of importDbFile means for the server that it leaves.
    unfoldable pub IsLeftBy : Server D → List ℕ → Option Bool → Server D → Type 0
    unfolding replace_db_file
    IsLeftBy s uploaded (some true) s' =
        IsGoodUpload s.disk uploaded
        × ((replace_db_file s.disk db_path uploaded).1 ≡ true)
        × (open_or_create (closed s uploaded).disk ≡ some s'.disk)
        × (s'.opened ≡ true)
    IsLeftBy s uploaded (some false) s' =
        ((why : List ℕ) × IsBadUpload s.disk uploaded why × (s' ≡ s))
        ⊎ (IsGoodUpload s.disk uploaded
            × ((replace_db_file s.disk db_path uploaded).1 ≡ false)
            × (s' ≡ closed s uploaded))
    IsLeftBy s uploaded none s' =
        ((check_chain s.disk uploaded key ≡ chain_thrown) × (s' ≡ s))
        ⊎ (IsGoodUpload s.disk uploaded
            × ((replace_db_file s.disk db_path uploaded).1 ≡ true)
            × (open_or_create (closed s uploaded).disk ≡ none)
            × (s' ≡ closed s uploaded))
