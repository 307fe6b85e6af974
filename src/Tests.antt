-- ===== src/Tests.antt =====
-- Runs of the program's functions on small inputs, and the data that they share.
pub mod Store
pub mod Payment
pub mod Text
pub mod Command
pub mod Line
pub mod Startup
pub mod Threads
pub mod Wallet
pub mod Listing
pub mod Running
pub mod Restart
pub mod Start
pub mod Rpc
use programming_lightning_bu.Base.{
  ℕ, ◌≡◌, ◌≢◌, refl, Str, str, Bool, true, false, not, Option, none, some, List, [], ◌∷◌, ◌++◌, All,
  all, eqb, arith, ◌&&◌,
}
use programming_lightning_bu.FilePath.{FilePath}
pub use programming_lightning_bu.Text.SplitLaws.{Lacks-all}
use programming_lightning_bu.Fs.{World, file, dir}
use programming_lightning_bu.FilesystemStore.{Config, Process, FilesystemStore}
use programming_lightning_bu.FilesystemStore.Paths.{IsPlain}
use programming_lightning_bu.Payments.{Bytes, PaymentInfo, HtlcStatus, pending}
use programming_lightning_bu.Node.{Ldk, Node}

abbrev pub letters : Str
letters = str "abcdefghijklmnopqrstuvwxyzABCDEFGHIJKLMNOPQRSTUVWXYZ0123456789_-"

abbrev pub config : Config
config = record { alphabet = letters; max_len = 120; debug = false }

pub config-IsPlain : IsPlain config
config-IsPlain = record {
  no_dot = Lacks-all b'.' letters refl;
  no_slash = Lacks-all b'/' letters refl;
}

abbrev pub store : FilesystemStore
store = record { data_dir = str "data" ∷ []; tmp_file_counter = 0; gc_counter = 1; locks = [] }

abbrev pub world : World
world = record {
  disk =
      (str "data" ∷ [], dir)
      ∷ (str "data" ∷ str "inbound_payments" ∷ [], file (1 ∷ []))
      ∷ (str "data" ∷ str "outbound_payments" ∷ [], file (2 ∷ []))
      ∷ [];
  faults = [];
}

abbrev pub process : Process
process = record { store = store; world = world }

-- LDK's answers: it accepts every call, and the peer [7] is connected.
abbrev pub ldk : Ldk
ldk = record {
  config = config;
  encode_inbound = λ d. 1 ∷ [];
  encode_outbound = λ d. 2 ∷ [];
  accepts = λ calls c. true;
  peers = λ calls. (7 ∷ []) ∷ [];
  channel_peers = λ calls. [];
  connection = λ calls k a. some (false ∷ true ∷ []);
}

abbrev pub payment : PaymentInfo
payment = record { preimage = none; secret = none; status = pending; amt_msat = some 5 }

abbrev pub node : Node
node = record {
  process = process;
  persister = store;
  inbound = [];
  outbound = (4 ∷ [], payment) ∷ [];
  calls = [];
}
