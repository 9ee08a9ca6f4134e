-- ===== src/Server/Main/Restarted.antt =====
-- A server that is started again after it has served clients.
use lapas.Prelude.{
  ℕ, ◌≡◌, ◌∙◌, refl, ap, Option, List, [], Outcome, ok, >>=-eq-ok, ok-injective, ◌>>=◌, subst,
  if◌then◌else◌, sym,
}
use lapas.Prelude.Text.Laws.{str_eq_refl}
use lapas.Prelude.Text.{Str, codes, lines, str_eq}
use lapas.Server.Users.{UserIndex, Crates, UserService, new, read_user_index}
use lapas.Server.Users.Stored.{ReadsBack}
use lapas.Server.State.{State, config_get, push_path, Config, DnsService}
use lapas.Server.Session.Keeps.{IsSame, round-IsSame}
use lapas.Server.Session.Distinct.{handle_handshake_state}
use lapas.Server.Config.{Disk, read_lines, new_dns, init}
use lapas.Server.System.{System, Move, greets, asks, Reach, start, later}
use lapas.Server.System.Durable.{HasText, IsDurable, Undisturbed, Keeping, Reach-IsKept}
use lapas.Server.Main.{listening, main}

-- Where the configuration puts the file of the users.
unfoldable pub user_index_path : Config → Outcome Str
unfolding config_get push_path
user_index_path config = do
  homes ← config_get (codes "LAPAS_USERHOMES_DIR") config
  ok (push_path homes (codes "USER_INDEX"))

user_index_path-homes :
    (config : Config) (homes path : Str)
    → config_get (codes "LAPAS_USERHOMES_DIR") config ≡ ok homes
    → user_index_path config ≡ ok path
    → push_path homes (codes "USER_INDEX") ≡ path
unfolding user_index_path
user_index_path-homes config homes path e q =
    ok-injective _ _
      (sym (ap (λ (o : Outcome Str). o >>= (λ h. ok (push_path h (codes "USER_INDEX")))) e) ∙ q)

-- The disk with the files that the server has left: its file of the users at this path, and the
-- configuration.
abbrev pub left_by : {D : Type 0} → Str → State D → Disk → Disk
left_by path s disk = record disk {
  config_file = ok s.config_text;
  user_index = λ p. if str_eq p path then ok s.user_service.file else disk.user_index p;
}

module _ {D : Type 0} (crates : Crates D) where
  new-IsDurable :
      (file : Option Str) (s : UserService D) → new crates file ≡ ok s → IsDurable crates s
  unfolding new
  new-IsDurable file s e =
      let (index, r, q) = >>=-eq-ok (read_user_index crates file) _ e in
      let same : record { user_index = index; file = file } ≡ s = ok-injective _ _ q in
      subst (IsDurable crates) same (
        ap (λ (o : Outcome (UserIndex D)). o >>= (λ i. ok (record { user_index = i; file = file })))
          r)

  -- What one start of the server says of another.
  record Restarts (disk : Disk) (state : State D) : Type 0 where
    pub stored : IsDurable crates state.user_service
    pub again :
        (path : Str) (v : State D)
        → user_index_path state.config ≡ ok path
        → IsDurable crates v.user_service
        → v.config_text ≡ state.config_text
        → init crates (left_by path v disk) v.hosts
          ≡ ok (record state { user_service = v.user_service; hosts = v.hosts })
    pub notified : state.notified ≡ []
    pub listeners : state.listeners ≡ []

  found_again :
      (disk : Disk) (hosts : List (Str × Str)) (content homes domain folder : Str) (config : Config)
      (file : Option Str) (service : UserService D) (dns : DnsService)
      → disk.config_file ≡ ok content
      → read_lines [] (lines content) ≡ ok config
      → config_get (codes "LAPAS_USERHOMES_DIR") config ≡ ok homes
      → config_get (codes "LAPAS_NET_DOMAIN") config ≡ ok domain
      → config_get (codes "LAPAS_DNS_HOSTMAPPINGS_DIR") config ≡ ok folder
      → new crates file ≡ ok service
      → new_dns disk domain folder ≡ ok dns
      → Restarts disk (record {
        config = config;
        user_service = service;
        dns_service = dns;
        hosts = hosts;
        config_text = content;
        notified = [];
        listeners = [];
      })
  unfolding init
  found_again disk hosts content homes domain folder config file service dns e1 e2 e3 e4 e5 e7 e8 =
      record {
        stored = new-IsDurable file service e7;
        again = λ path v q d c.
            let there = user_index_path-homes config homes path e3 q in
            rw (c, e2, e3, e4, e5, there, str_eq_refl path, d, e8) refl;
        notified = refl;
        listeners = refl;
      }

  init-Restarts :
      (disk : Disk) (hosts : List (Str × Str)) (state : State D)
      → init crates disk hosts ≡ ok state
      → Restarts disk state
  unfolding init
  init-Restarts disk hosts state e =
      let (content, e1, h1) = >>=-eq-ok disk.config_file _ e in
      let (config, e2, h2) = >>=-eq-ok (read_lines [] (lines content)) _ h1 in
      let (homes, e3, h3) = >>=-eq-ok (config_get (codes "LAPAS_USERHOMES_DIR") config) _ h2 in
      let (domain, e4, h4) = >>=-eq-ok (config_get (codes "LAPAS_NET_DOMAIN") config) _ h3 in
      let (folder, e5, h5) =
        >>=-eq-ok (config_get (codes "LAPAS_DNS_HOSTMAPPINGS_DIR") config) _ h4 in
      let (file, e6, h6) =
        >>=-eq-ok (disk.user_index (push_path homes (codes "USER_INDEX"))) _ h5 in
      let (service, e7, h7) = >>=-eq-ok (new crates file) _ h6 in
      let (dns, e8, h8) = >>=-eq-ok (new_dns disk domain folder) _ h7 in
      subst (Restarts disk) (ok-injective _ _ h8) (
        found_again disk hosts content homes domain folder config file service dns e1 e2 e3 e4 e5 e7
          e8)

module _ {D : Type 0} (crates : Crates D) (sha512_hex : Str → Str) where
  Move-IsSame : {s v : System D} → Move crates sha512_hex s v → IsSame s.state v.state
  Move-IsSame (greets i t e) = rw (handle_handshake_state t _) (refl, refl)
  Move-IsSame (asks peer t e) = round-IsSame crates sha512_hex peer t _

  Reach-IsSame : {s v : System D} {n : ℕ} → Reach crates sha512_hex s n v → IsSame s.state v.state
  Reach-IsSame start = (refl, refl)
  Reach-IsSame (later r mv q) =
      let (c, d) = Reach-IsSame r in let (c', d') = Move-IsSame mv in (c' ∙ c, d' ∙ d)

  -- With serde_json writing every index and reading back what it writes: a server that was started,
  -- has served any interleaving of the rounds of any number of clients on a file system that does not
  -- fail, in the background neither, without a request for a host name whose path names the file of
  -- the users or the configuration, and is started again on the files that it has left, has the
  -- configuration, the users with their `next_id` and the host names that it had, and no listener.
  pub main_restarted :
      ReadsBack crates
      → HasText crates
      → (disk : Disk) (hosts : List (Str × Str)) (s v : System D) (n : ℕ) (path : Str)
      → main crates disk hosts (ok tt) ≡ ok s
      → user_index_path s.state.config ≡ ok path
      → (r : Reach crates sha512_hex s n v) → Undisturbed crates sha512_hex r
      → Keeping crates sha512_hex r
      → main crates (left_by path v.state disk) v.state.hosts (ok tt)
        ≡ ok (listening (record v.state { notified = []; listeners = [] }))
  unfolding main
  main_restarted laws texts disk hosts s v n path e at r u k =
      let (x, i, m) = >>=-eq-ok (init crates disk hosts) _ e in
      let started =
        subst (Restarts crates disk) (ap (λ (w : System D). w.state) (ok-injective _ _ m))
          (init-Restarts crates disk hosts x i) in
      let (c, d) = Reach-IsSame r in
      let (durable, text) =
        Reach-IsKept crates sha512_hex laws texts s.state.config_text r u k
          (started.stored, refl) in
      rw
        (
          started.again path v.state at durable text,
          c,
          d,
          text,
          started.notified,
          started.listeners,
        )
        refl
