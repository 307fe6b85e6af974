-- ===== src/Logger.antt =====
-- src/logger.rs: a line for each record, at the end of one file. The time is a text that the crate
-- chrono formats.
pub mod Laws
use programming_lightning_bu.Base.{
  ℕ, ◌-◌, Str, str, List, [], ◌∷◌, ◌++◌, length, replicate, Outcome, ok, err, panic,
}
use programming_lightning_bu.Exec.{IoError, ◌>>=◌, ◌>>◌}
use programming_lightning_bu.FilePath.{FilePath}
use programming_lightning_bu.Fs.{World, Io, create_dir_all, open_append, append_file}
use programming_lightning_bu.Text.{show}

pub record FilesystemLogger : Type 0 where
  pub data_dir : FilePath

-- What the code reads of LDK's `Record`, as text.
pub record Record : Type 0 where
  pub args : Str
  pub level : Str
  pub module_path : Str
  pub line : ℕ

abbrev pub unwrap_io : Io (Unit {0}) → Io (Unit {0})
unwrap_io m w = let (r, w') = m w in (elim r [ ok x ↦ ok x | err e ↦ panic | panic ↦ panic ], w')

-- `FilesystemLogger::new`
unfoldable pub new : FilePath → Io FilesystemLogger
unfolding ◌>>=◌
new data_dir =
    let logs_path = data_dir ++ str "logs" ∷ [] in
    unwrap_io (create_dir_all logs_path) >>= λ _ w. (ok (record { data_dir = logs_path }), w)

-- `{:<5}`
abbrev pub padded : ℕ → Str → Str
padded width s = s ++ replicate (width - length s) b' '

abbrev pub log_line : Str → Record → Str
log_line now record_ =
    now
    ++ (str " "
        ++ (padded 5 record_.level
            ++ (str " ["
                ++ (record_.module_path
                    ++ (str ":"
                        ++ (show record_.line ++ (str "] " ++ (record_.args ++ str "\n"))))))))

-- `Logger::log`
unfoldable pub log : FilesystemLogger → Str → Record → Io (Unit {0})
unfolding open_append append_file ◌>>=◌
log l now record_ =
    let path = l.data_dir ++ str "logs.txt" ∷ [] in
    unwrap_io (open_append l.data_dir path) >> unwrap_io (append_file path (log_line now record_))
