-- ===== src/Server/Tests/Texts.antt =====
-- In place of serde_json, a text of numbers for an index whose users were just created.
use lapas.Prelude.{
  ℕ, zero, suc, ◌≡◌, ◌∙◌, refl, ap, List, [], ◌∷◌, ◌++◌, length, take, drop, take_append,
  drop_append, Outcome, ok, err, panic, ◌>>=◌, sym, ok-injective,
}
use lapas.Prelude.Text.{Str, codes}
use lapas.Server.Users.{Crates, UserIndexEntry, UserIndex}
use lapas.Server.Users.Stored.{ReadsBack}
use lapas.Server.System.Durable.{HasText}

abbrev pub Entry : Type 0
Entry = UserIndexEntry (Unit {0})

unfoldable pub entries_text : List Entry → Str
entries_text [] = []
entries_text (u ∷ us) =
    u.id ∷ length u.name ∷ length u.password_hash ∷ (u.name ++ (u.password_hash ++ entries_text us))

abbrev pub with_entry : Entry → Outcome (List Entry) → Outcome (List Entry)
with_entry u (ok us) = ok (u ∷ us)
with_entry u (err e) = err e
with_entry u panic = panic

unfoldable pub entries_of : ℕ → Str → Outcome (List Entry)
entries_of zero s = ok []
entries_of (suc n) (i ∷ l ∷ h ∷ s) =
    with_entry
      (record {
        id = i;
        name = take l s;
        password_hash = take h (drop l s);
        creation_ts = tt;
        last_update_ts = tt;
      })
      (entries_of n (drop h (drop l s)))
entries_of (suc n) s = err (codes "no index")

abbrev pub index_of : Str → Outcome (UserIndex (Unit {0}))
index_of (next ∷ n ∷ s) = do users ← entries_of n s; ok (record { next_id = next; users = users })
index_of s = err (codes "no index")

abbrev pub crates : Crates (Unit {0})
crates = record {
  to_string_pretty = λ index. ok (index.next_id ∷ length index.users ∷ entries_text index.users);
  from_str = index_of;
  sha512_crypt_b64 = λ p s. p;
}

entries_of-entries_text : (us : List Entry) → entries_of (length us) (entries_text us) ≡ ok us
unfolding entries_of entries_text
entries_of-entries_text [] = refl
entries_of-entries_text (u ∷ us) =
    rw
      (
        drop_append u.name,
        take_append u.name,
        drop_append u.password_hash,
        take_append u.password_hash,
        entries_of-entries_text us,
      )
      refl

pub crates-ReadsBack : ReadsBack crates
crates-ReadsBack index text h =
    ap index_of (sym (ok-injective _ _ h)) ∙ rw (entries_of-entries_text index.users) refl

pub crates-HasText : HasText crates
crates-HasText index = (_, refl)
