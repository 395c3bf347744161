-- ===== src/Sqlite/Codes.antt =====
-- internal/connection/sqlite/query_error.go, the result codes of SQLite that it names and their
-- symbols. The package sqlite3 gives each name a value of its own; `other` stands for every other value.
use dataporch.Prelude.{ℕ, Bool, if◌then◌else◌}
use dataporch.Text.{Text, bytes}

-- `sqlite3.ErrorCode`.
pub data ErrorCode : Type 0 where
  code_error code_internal code_perm code_abort code_busy code_locked code_nomem code_readonly
        code_interrupt code_ioerr code_corrupt code_notfound code_full code_cantopen code_protocol
        code_empty code_schema code_toobig code_constraint code_mismatch code_misuse code_nolfs
        code_auth code_format code_range code_notadb code_notice code_warning :
      ErrorCode
  other_code : ℕ → ErrorCode

-- `sqlite3.ExtendedErrorCode`.
pub data ExtendedErrorCode : Type 0 where
  error_missing_collseq error_retry error_snapshot error_reservesize error_key error_unable
        ioerr_read ioerr_short_read ioerr_write ioerr_fsync ioerr_dir_fsync ioerr_truncate
        ioerr_fstat ioerr_unlock ioerr_rdlock ioerr_delete ioerr_blocked ioerr_nomem ioerr_access
        ioerr_checkreservedlock ioerr_lock ioerr_close ioerr_dir_close ioerr_shmopen ioerr_shmsize
        ioerr_shmlock ioerr_shmmap ioerr_seek ioerr_delete_noent ioerr_mmap ioerr_gettemppath
        ioerr_convpath ioerr_vnode ioerr_auth ioerr_begin_atomic ioerr_commit_atomic
        ioerr_rollback_atomic ioerr_data ioerr_corruptfs ioerr_in_page ioerr_badkey ioerr_codec
        locked_sharedcache locked_vtab busy_recovery busy_snapshot busy_timeout cantopen_notempdir
        cantopen_isdir cantopen_fullpath cantopen_convpath cantopen_symlink corrupt_vtab
        corrupt_sequence corrupt_index readonly_recovery readonly_cantlock readonly_rollback
        readonly_dbmoved readonly_cantinit readonly_directory abort_rollback constraint_check
        constraint_commithook constraint_foreignkey constraint_function constraint_notnull
        constraint_primarykey constraint_trigger constraint_unique constraint_vtab constraint_rowid
        constraint_pinned constraint_datatype notice_recover_wal notice_recover_rollback notice_rbu
        warning_autoindex auth_user :
      ExtendedErrorCode
  other_extended : ℕ → ExtendedErrorCode

unfoldable pub primary_code_symbol : ErrorCode → Text
primary_code_symbol code_error = bytes "SQLITE_ERROR"
primary_code_symbol code_internal = bytes "SQLITE_INTERNAL"
primary_code_symbol code_perm = bytes "SQLITE_PERM"
primary_code_symbol code_abort = bytes "SQLITE_ABORT"
primary_code_symbol code_busy = bytes "SQLITE_BUSY"
primary_code_symbol code_locked = bytes "SQLITE_LOCKED"
primary_code_symbol code_nomem = bytes "SQLITE_NOMEM"
primary_code_symbol code_readonly = bytes "SQLITE_READONLY"
primary_code_symbol code_interrupt = bytes "SQLITE_INTERRUPT"
primary_code_symbol code_ioerr = bytes "SQLITE_IOERR"
primary_code_symbol code_corrupt = bytes "SQLITE_CORRUPT"
primary_code_symbol code_notfound = bytes "SQLITE_NOTFOUND"
primary_code_symbol code_full = bytes "SQLITE_FULL"
primary_code_symbol code_cantopen = bytes "SQLITE_CANTOPEN"
primary_code_symbol code_protocol = bytes "SQLITE_PROTOCOL"
primary_code_symbol code_empty = bytes "SQLITE_EMPTY"
primary_code_symbol code_schema = bytes "SQLITE_SCHEMA"
primary_code_symbol code_toobig = bytes "SQLITE_TOOBIG"
primary_code_symbol code_constraint = bytes "SQLITE_CONSTRAINT"
primary_code_symbol code_mismatch = bytes "SQLITE_MISMATCH"
primary_code_symbol code_misuse = bytes "SQLITE_MISUSE"
primary_code_symbol code_nolfs = bytes "SQLITE_NOLFS"
primary_code_symbol code_auth = bytes "SQLITE_AUTH"
primary_code_symbol code_format = bytes "SQLITE_FORMAT"
primary_code_symbol code_range = bytes "SQLITE_RANGE"
primary_code_symbol code_notadb = bytes "SQLITE_NOTADB"
primary_code_symbol code_notice = bytes "SQLITE_NOTICE"
primary_code_symbol code_warning = bytes "SQLITE_WARNING"
primary_code_symbol (other_code n) = bytes "SQLITE_UNKNOWN"

-- `extendedCodeSymbol`; the code that has no entry is given with what `Code` makes of it, and whether
-- that is the same value.
unfoldable pub extended_code_symbol :
    (ExtendedErrorCode → ErrorCode) → (ExtendedErrorCode → Bool) → ExtendedErrorCode → Text
unfolding primary_code_symbol
extended_code_symbol code is_primary error_missing_collseq = bytes "SQLITE_ERROR_MISSING_COLLSEQ"
extended_code_symbol code is_primary error_retry = bytes "SQLITE_ERROR_RETRY"
extended_code_symbol code is_primary error_snapshot = bytes "SQLITE_ERROR_SNAPSHOT"
extended_code_symbol code is_primary error_reservesize = bytes "SQLITE_ERROR_RESERVESIZE"
extended_code_symbol code is_primary error_key = bytes "SQLITE_ERROR_KEY"
extended_code_symbol code is_primary error_unable = bytes "SQLITE_ERROR_UNABLE"
extended_code_symbol code is_primary ioerr_read = bytes "SQLITE_IOERR_READ"
extended_code_symbol code is_primary ioerr_short_read = bytes "SQLITE_IOERR_SHORT_READ"
extended_code_symbol code is_primary ioerr_write = bytes "SQLITE_IOERR_WRITE"
extended_code_symbol code is_primary ioerr_fsync = bytes "SQLITE_IOERR_FSYNC"
extended_code_symbol code is_primary ioerr_dir_fsync = bytes "SQLITE_IOERR_DIR_FSYNC"
extended_code_symbol code is_primary ioerr_truncate = bytes "SQLITE_IOERR_TRUNCATE"
extended_code_symbol code is_primary ioerr_fstat = bytes "SQLITE_IOERR_FSTAT"
extended_code_symbol code is_primary ioerr_unlock = bytes "SQLITE_IOERR_UNLOCK"
extended_code_symbol code is_primary ioerr_rdlock = bytes "SQLITE_IOERR_RDLOCK"
extended_code_symbol code is_primary ioerr_delete = bytes "SQLITE_IOERR_DELETE"
extended_code_symbol code is_primary ioerr_blocked = bytes "SQLITE_IOERR_BLOCKED"
extended_code_symbol code is_primary ioerr_nomem = bytes "SQLITE_IOERR_NOMEM"
extended_code_symbol code is_primary ioerr_access = bytes "SQLITE_IOERR_ACCESS"
extended_code_symbol code is_primary ioerr_checkreservedlock =
    bytes "SQLITE_IOERR_CHECKRESERVEDLOCK"
extended_code_symbol code is_primary ioerr_lock = bytes "SQLITE_IOERR_LOCK"
extended_code_symbol code is_primary ioerr_close = bytes "SQLITE_IOERR_CLOSE"
extended_code_symbol code is_primary ioerr_dir_close = bytes "SQLITE_IOERR_DIR_CLOSE"
extended_code_symbol code is_primary ioerr_shmopen = bytes "SQLITE_IOERR_SHMOPEN"
extended_code_symbol code is_primary ioerr_shmsize = bytes "SQLITE_IOERR_SHMSIZE"
extended_code_symbol code is_primary ioerr_shmlock = bytes "SQLITE_IOERR_SHMLOCK"
extended_code_symbol code is_primary ioerr_shmmap = bytes "SQLITE_IOERR_SHMMAP"
extended_code_symbol code is_primary ioerr_seek = bytes "SQLITE_IOERR_SEEK"
extended_code_symbol code is_primary ioerr_delete_noent = bytes "SQLITE_IOERR_DELETE_NOENT"
extended_code_symbol code is_primary ioerr_mmap = bytes "SQLITE_IOERR_MMAP"
extended_code_symbol code is_primary ioerr_gettemppath = bytes "SQLITE_IOERR_GETTEMPPATH"
extended_code_symbol code is_primary ioerr_convpath = bytes "SQLITE_IOERR_CONVPATH"
extended_code_symbol code is_primary ioerr_vnode = bytes "SQLITE_IOERR_VNODE"
extended_code_symbol code is_primary ioerr_auth = bytes "SQLITE_IOERR_AUTH"
extended_code_symbol code is_primary ioerr_begin_atomic = bytes "SQLITE_IOERR_BEGIN_ATOMIC"
extended_code_symbol code is_primary ioerr_commit_atomic = bytes "SQLITE_IOERR_COMMIT_ATOMIC"
extended_code_symbol code is_primary ioerr_rollback_atomic = bytes "SQLITE_IOERR_ROLLBACK_ATOMIC"
extended_code_symbol code is_primary ioerr_data = bytes "SQLITE_IOERR_DATA"
extended_code_symbol code is_primary ioerr_corruptfs = bytes "SQLITE_IOERR_CORRUPTFS"
extended_code_symbol code is_primary ioerr_in_page = bytes "SQLITE_IOERR_IN_PAGE"
extended_code_symbol code is_primary ioerr_badkey = bytes "SQLITE_IOERR_BADKEY"
extended_code_symbol code is_primary ioerr_codec = bytes "SQLITE_IOERR_CODEC"
extended_code_symbol code is_primary locked_sharedcache = bytes "SQLITE_LOCKED_SHAREDCACHE"
extended_code_symbol code is_primary locked_vtab = bytes "SQLITE_LOCKED_VTAB"
extended_code_symbol code is_primary busy_recovery = bytes "SQLITE_BUSY_RECOVERY"
extended_code_symbol code is_primary busy_snapshot = bytes "SQLITE_BUSY_SNAPSHOT"
extended_code_symbol code is_primary busy_timeout = bytes "SQLITE_BUSY_TIMEOUT"
extended_code_symbol code is_primary cantopen_notempdir = bytes "SQLITE_CANTOPEN_NOTEMPDIR"
extended_code_symbol code is_primary cantopen_isdir = bytes "SQLITE_CANTOPEN_ISDIR"
extended_code_symbol code is_primary cantopen_fullpath = bytes "SQLITE_CANTOPEN_FULLPATH"
extended_code_symbol code is_primary cantopen_convpath = bytes "SQLITE_CANTOPEN_CONVPATH"
extended_code_symbol code is_primary cantopen_symlink = bytes "SQLITE_CANTOPEN_SYMLINK"
extended_code_symbol code is_primary corrupt_vtab = bytes "SQLITE_CORRUPT_VTAB"
extended_code_symbol code is_primary corrupt_sequence = bytes "SQLITE_CORRUPT_SEQUENCE"
extended_code_symbol code is_primary corrupt_index = bytes "SQLITE_CORRUPT_INDEX"
extended_code_symbol code is_primary readonly_recovery = bytes "SQLITE_READONLY_RECOVERY"
extended_code_symbol code is_primary readonly_cantlock = bytes "SQLITE_READONLY_CANTLOCK"
extended_code_symbol code is_primary readonly_rollback = bytes "SQLITE_READONLY_ROLLBACK"
extended_code_symbol code is_primary readonly_dbmoved = bytes "SQLITE_READONLY_DBMOVED"
extended_code_symbol code is_primary readonly_cantinit = bytes "SQLITE_READONLY_CANTINIT"
extended_code_symbol code is_primary readonly_directory = bytes "SQLITE_READONLY_DIRECTORY"
extended_code_symbol code is_primary abort_rollback = bytes "SQLITE_ABORT_ROLLBACK"
extended_code_symbol code is_primary constraint_check = bytes "SQLITE_CONSTRAINT_CHECK"
extended_code_symbol code is_primary constraint_commithook = bytes "SQLITE_CONSTRAINT_COMMITHOOK"
extended_code_symbol code is_primary constraint_foreignkey = bytes "SQLITE_CONSTRAINT_FOREIGNKEY"
extended_code_symbol code is_primary constraint_function = bytes "SQLITE_CONSTRAINT_FUNCTION"
extended_code_symbol code is_primary constraint_notnull = bytes "SQLITE_CONSTRAINT_NOTNULL"
extended_code_symbol code is_primary constraint_primarykey = bytes "SQLITE_CONSTRAINT_PRIMARYKEY"
extended_code_symbol code is_primary constraint_trigger = bytes "SQLITE_CONSTRAINT_TRIGGER"
extended_code_symbol code is_primary constraint_unique = bytes "SQLITE_CONSTRAINT_UNIQUE"
extended_code_symbol code is_primary constraint_vtab = bytes "SQLITE_CONSTRAINT_VTAB"
extended_code_symbol code is_primary constraint_rowid = bytes "SQLITE_CONSTRAINT_ROWID"
extended_code_symbol code is_primary constraint_pinned = bytes "SQLITE_CONSTRAINT_PINNED"
extended_code_symbol code is_primary constraint_datatype = bytes "SQLITE_CONSTRAINT_DATATYPE"
extended_code_symbol code is_primary notice_recover_wal = bytes "SQLITE_NOTICE_RECOVER_WAL"
extended_code_symbol code is_primary notice_recover_rollback =
    bytes "SQLITE_NOTICE_RECOVER_ROLLBACK"
extended_code_symbol code is_primary notice_rbu = bytes "SQLITE_NOTICE_RBU"
extended_code_symbol code is_primary warning_autoindex = bytes "SQLITE_WARNING_AUTOINDEX"
extended_code_symbol code is_primary auth_user = bytes "SQLITE_AUTH_USER"
extended_code_symbol code is_primary (other_extended n) =
    if is_primary (other_extended n)
    then primary_code_symbol (code (other_extended n))
    else bytes "SQLITE_UNKNOWN"
