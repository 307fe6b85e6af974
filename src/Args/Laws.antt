-- ===== src/Args/Laws.antt =====
-- What src/args.rs accepts.
use mathlib.Core.Option.{none-ne-some}
use programming_lightning_bu.Base.{
  ℕ, ◌+◌, ◌-◌, Option-cases, Bool-cases, ltb, ◌==◌, inl, inr, unwrap, drop, if◌then◌else◌, ◌≡◌, ◌≤◌,
  ◌≢◌, subst, sym, ◌∙◌, Str, str, none, some, ap, Option, List, [], ◌∷◌, ◌++◌, All, length,
  replicate, ok, arith, list_eq, nat_eq, option_eq, >>=-eq-ok, length-append, length-replicate,
  unwrap,
}
use programming_lightning_bu.Payments.{Bytes}
use programming_lightning_bu.Text.{split, rsplitn2, rsplit_once, parse_uint, parse_uint-le, u16_max}
use programming_lightning_bu.Text.SplitLaws.{
  Lacks, split-append, split-eq_singleton, split-cases, join, rsplit_once-append, join,
}
use programming_lightning_bu.Args.{Environment, LdkUserInfo, testnet, Option}
use programming_lightning_bu.Args.Credentials.{parse_rpc_auth}
use programming_lightning_bu.Args.Startup.{
  parse_startup_args, parse_rest, parse_arguments, padded, listening_port, parse_network,
  credentials, announced_name, parse_addresses, get_config_info, nth, name_index, host_and_port,
  first_part,
}

-- Texts without a colon are read back from between and behind one.
parse_rpc_auth-join :
    (u p : Str) → Lacks b':' u → Lacks b':' p → parse_rpc_auth (u ++ b':' ∷ p) ≡ ok (u, p)
unfolding parse_rpc_auth
parse_rpc_auth-join u p hu hp =
    ground (arith, split-append b':' u p hu, split-eq_singleton b':' p hp)

-- Every accepted text is a user name, a colon and a password, neither of which has a colon.
parse_rpc_auth-inv :
    (s u p : Str) → parse_rpc_auth s ≡ ok (u, p) → (s ≡ u ++ b':' ∷ p) × Lacks b':' u × Lacks b':' p
unfolding parse_rpc_auth join
parse_rpc_auth-inv s u p h = let (a, ps, e, j, l) = split-cases b':' s in from_parts a ps e j l
  where
    from_parts :
        (a : Str) (ps : List Str)
        → split b':' s ≡ a ∷ ps
        → join b':' (a ∷ ps) ≡ s
        → All (Lacks b':') (a ∷ ps)
        → (s ≡ u ++ b':' ∷ p) × Lacks b':' u × Lacks b':' p
    from_parts a [] e j l = grind (arith, h, e)
    from_parts a (b ∷ []) e j l =
        let q : a ≡ u = grind (arith, h, e) in
        let r : b ≡ p = grind (arith, h, e) in
        (grind (arith, q, r, j), subst (Lacks b':') q l.0, subst (Lacks b':') r l.1.0)
    from_parts a (b ∷ c ∷ ps) e j l = grind (arith, h, e)

Lacks-join : (c d : ℕ) (a b : Str) → d ≢ c → Lacks c a → Lacks c b → Lacks c (a ++ d ∷ b)
Lacks-join c d [] b n h k = (n, k)
Lacks-join c d (x ∷ a) b n h k = (h.0, Lacks-join c d a b n h.1 k)

parse_rest-credentials :
    (socket_address : Str → Option Bytes) (e : Environment) (program u p host port text dir : Str)
    (n : ℕ)
    → e.args ≡ program ∷ text ∷ dir ∷ []
    → Lacks b':' u
    → Lacks b':' p
    → parse_uint u16_max port ≡ some n
    → parse_rest socket_address e ((host ++ b':' ∷ port) ∷ (u ++ b':' ∷ p) ∷ []) (host, port) dir
      ≡ ok (record {
        bitcoind_rpc_username = u;
        bitcoind_rpc_password = p;
        bitcoind_rpc_port = n;
        bitcoind_rpc_host = host;
        ldk_storage_dir_path = dir;
        ldk_peer_listening_port = 9735;
        ldk_announced_listen_addr = [];
        ldk_announced_node_name = replicate 32 0;
        network = testnet;
      })
unfolding parse_rest listening_port parse_network credentials announced_name parse_addresses
parse_rest-credentials sa e program u p host port text dir n args hu hp parsed =
    ground (arith, args, parsed, parse_rpc_auth-join u p hu hp)

-- With the credentials in the first argument the password may hold any byte but a colon, at signs
-- included, and the other settings have their defaults.
pub parse_startup_args-credentials :
    (socket_address : Str → Option Bytes) (e : Environment) (program u p host port dir : Str)
    (n : ℕ)
    → e.args ≡ program ∷ ((u ++ b':' ∷ p) ++ b'@' ∷ (host ++ b':' ∷ port)) ∷ dir ∷ []
    → Lacks b':' u
    → Lacks b':' p
    → Lacks b':' host
    → Lacks b'@' host
    → Lacks b':' port
    → Lacks b'@' port
    → parse_uint u16_max port ≡ some n
    → parse_startup_args socket_address e
      ≡ ok (record {
        bitcoind_rpc_username = u;
        bitcoind_rpc_password = p;
        bitcoind_rpc_port = n;
        bitcoind_rpc_host = host;
        ldk_storage_dir_path = dir;
        ldk_peer_listening_port = 9735;
        ldk_announced_listen_addr = [];
        ldk_announced_node_name = replicate 32 0;
        network = testnet;
      })
unfolding parse_startup_args parse_arguments rsplitn2
parse_startup_args-credentials sa e program u p host port dir n args hu hp hc hh pc ph parsed =
    let text = (u ++ b':' ∷ p) ++ b'@' ∷ (host ++ b':' ∷ port) in
    let parts : rsplit_once b'@' text ≡ some (u ++ b':' ∷ p, host ++ b':' ∷ port) =
      rsplit_once-append b'@' (u ++ b':' ∷ p) (host ++ b':' ∷ port)
        (Lacks-join b'@' b':' host port (omega arith) hh ph) in
    let other : text ≢ str "workshop" = λ q.
      none-ne-some (u ++ b':' ∷ p, host ++ b':' ∷ port) (ap (rsplit_once b'@') (sym q) ∙ parts) in
    let rest = parse_rest-credentials sa e program u p host port text dir n args hu hp parsed in
    ground (
      arith,
      args,
      parts,
      other,
      rest,
      split-append b':' host port hc,
      split-eq_singleton b':' port pc,
    )

announced_name-length :
    (o : Option Str) (name : Bytes) → announced_name o ≡ ok name → length name ≡ 32
unfolding announced_name padded
announced_name-length none name h = ground (arith, h)
announced_name-length (some s) name h = grind (
  arith,
  length-append s (replicate (32 - length s) 0),
  length-replicate {A = ℕ} (32 - length s) 0,
)

listening_port-le : (o : Option Str) → (listening_port o).0 ≤ 65535
unfolding listening_port
listening_port-le none = omega arith
listening_port-le (some p) = elim (Option-cases (parse_uint u16_max p)) [
  | inl e ↦ grind (arith, e)
  | inr (n, e) ↦ grind (arith, e, parse_uint-le u16_max p n e)
]

abbrev pub WithinBounds : LdkUserInfo → Type 0
WithinBounds info =
    (info.bitcoind_rpc_port ≤ 65535)
    × (info.ldk_peer_listening_port ≤ 65535)
    × (length info.ldk_announced_node_name ≡ 32)

parse_rest-bounds :
    (socket_address : Str → Option Bytes) (e : Environment) (parts : List Str) (path : Str × Str)
    (dir : Str) (info : LdkUserInfo)
    → parse_rest socket_address e parts path dir ≡ ok info
    → WithinBounds info
unfolding parse_rest
parse_rest-bounds sa e parts (host, port) dir info h =
    let (n, en, h1) = >>=-eq-ok (unwrap (parse_uint u16_max port)) _ h in
    let port3 = listening_port (nth 3 e.args) in
    let idx = if port3.1 then 4 else 3 in
    let (net, _, h2) = >>=-eq-ok (parse_network (nth idx e.args)) _ h1 in
    let (auth, _, h3) = >>=-eq-ok (credentials sa e parts net) _ h2 in
    let (name, el, h4) = >>=-eq-ok (announced_name (nth (idx + 1) e.args)) _ h3 in
    let addresses = drop (name_index (nth (idx + 1) e.args) idx + 1) e.args in
    let (addrs, _, h5) = >>=-eq-ok (parse_addresses sa addresses) _ h4 in
    let l = announced_name-length (nth (idx + 1) e.args) name el in
    let b = listening_port-le (nth 3 e.args) in
    grind (arith, h5, l, b, parse_uint-le u16_max port n, en)

arguments-bounds :
    (socket_address : Str → Option Bytes) (e : Environment) (info : LdkUserInfo)
    → parse_arguments socket_address e ≡ ok info
    → WithinBounds info
unfolding parse_arguments
arguments-bounds sa e info h =
    let (text, _, h1) = >>=-eq-ok (unwrap (nth 1 e.args)) _ h in
    let parts = rsplitn2 b'@' text in
    let (path, _, h2) = >>=-eq-ok (host_and_port (split b':' (first_part parts))) _ h1 in
    let (dir, _, h3) = >>=-eq-ok (unwrap (nth 2 e.args)) _ h2 in
    parse_rest-bounds sa e parts path dir info h3

workshop-bounds :
    (socket_address : Str → Option Bytes) (info : LdkUserInfo)
    → get_config_info socket_address ≡ ok info
    → WithinBounds info
unfolding get_config_info padded
workshop-bounds sa info h = ground (arith, h)

-- The ports of accepted arguments are 16-bit numbers and the node's name has 32 bytes.
parse_startup_args-bounds :
    (socket_address : Str → Option Bytes) (e : Environment) (info : LdkUserInfo)
    → parse_startup_args socket_address e ≡ ok info
    → WithinBounds info
unfolding parse_startup_args get_config_info
parse_startup_args-bounds sa e info h = elim (Bool-cases (nth 1 e.args == some (str "workshop"))) [
  | inl y ↦ workshop-bounds sa info (grind (arith, h, y))
  | inr n ↦ elim (Bool-cases (ltb (length e.args) 3)) [
    | inl y ↦ grind (arith, h, n, y)
    | inr m ↦ arguments-bounds sa e info (grind (arith, h, n, m))
  ]
]
