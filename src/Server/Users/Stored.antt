-- ===== src/Server/Users/Stored.antt =====
-- What a new start reads back.
use lapas.Prelude.{
  ◌≡◌, refl, ap, sym, ◌∙◌, ok, err, panic, Outcome, Option, inl, inr, arith, >>=-eq-ok, ◌>>◌, ◌>>=◌,
}
use lapas.Prelude.Text.{Str}
use lapas.Server.Users.{
  UserIndex, UserService, Crates, Outside, new, read_user_index, write_text, write_user_index,
  push_user, add_user,
}
use lapas.Server.Users.Sound.{add_user-cases}

-- What serde_json promises: the text of an index is read back as that index.
abbrev pub ReadsBack : {D : Type 0} → Crates D → Type 0
ReadsBack {D} crates =
    (index : UserIndex D) (text : Str)
    → crates.to_string_pretty index ≡ ok text
    → crates.from_str text ≡ ok index

module _ {D : Type 0} (crates : Crates D) (laws : ReadsBack crates) (os : Outside D) where
  write_text-stored :
      (index : UserIndex D) (text : Outcome Str)
      → crates.to_string_pretty index ≡ text
      → (write_text crates os text).result ≡ ok tt
      → os.written ≡ ok tt
      → read_user_index crates (write_text crates os text).after ≡ ok index
  unfolding write_text read_user_index
  write_text-stored index (ok text) e h bg =
      let (u, first, _) = >>=-eq-ok (os.write_all >> os.metadata) _ h in
      let (v, written, _) = >>=-eq-ok os.write_all _ first in rw (written, bg) (laws index text e)
  write_text-stored index (err m) e h bg = cc
  write_text-stored index panic e h bg = cc

  write_user_index-stored :
      (index : UserIndex D) (file : Option Str)
      → (write_user_index crates os index file).result ≡ ok tt
      → os.written ≡ ok tt
      → read_user_index crates (write_user_index crates os index file).after ≡ ok index
  unfolding write_user_index
  write_user_index-stored index file h bg =
      ground (arith, write_text-stored index (crates.to_string_pretty index) refl)

  -- With serde_json reading back what it writes: after a call of `add_user` that succeeds, and whose
  -- write in the background ends well, a new start of the service finds the same index as the running
  -- one has, with the new user.
  pub new-add_user :
      (username password : Str) (s : UserService D)
      → (add_user crates os username password s).result ≡ ok tt
      → os.written ≡ ok tt
      → new crates (add_user crates os username password s).after.file
        ≡ ok (add_user crates os username password s).after
  unfolding new push_user
  new-add_user username password s h bg = elim (add_user-cases crates os username password s) [
    | inl (message, e) ↦ cc
    | inr (free, e) ↦
        let stored = write_user_index-stored _ s.file (ap (λ d. d.result) (sym e) ∙ h) bg in
        rw (e, stored, ◌>>=◌)
  ]
