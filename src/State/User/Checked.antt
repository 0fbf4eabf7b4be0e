-- ===== src/State/User/Checked.antt =====
-- Which passwords the tests of state/user.go accept after `HashPassword`.
use go_icq.Prelude.{
  ℕ, ◌<◌, ◌≡◌, ◌≢◌, refl, Bool, true, false, ◌||◌, Option, some, List, All, length, bytes_eq_refl,
  bytes_eq-ne, arith,
}
use go_icq.Wire.Bytes.{IsByte}
use go_icq.Wire.Roast.{
  roast_pass, oscar_table, kerberos_table, oscar_java_table, toc_table, roast_oscar_password,
  roast_kerberos_password, roast_oscar_java_password, roast_toc_password,
}
use go_icq.Wire.Roast.Laws.{roast_pass-roast_pass}
use go_icq.State.User.{User}
use go_icq.State.User.Password.{
  weak_md5_password_hash, strong_md5_password_hash, validate_password, hash_password, validate_hash,
  validate_plaintext_pass, if_clear, validate_roasted_pass, validate_roasted_toc_pass,
  validate_roasted_kerberos_pass, validate_roasted_java_pass,
}

-- What a client roasts from the password gets this answer from the server.
abbrev Answers : (List ℕ → Option (List ℕ)) → (List ℕ → Option Bool) → List ℕ → Bool → Type 0
Answers roast validate pass b = (q : List ℕ) × (roast pass ≡ some q) × (validate q ≡ some b)

-- All six tests give this answer for the password.
abbrev pub AllAnswer : (List ℕ → List ℕ) → User → List ℕ → Bool → Type 0
AllAnswer md5 user pass b =
    (validate_plaintext_pass md5 user pass ≡ b)
    × (validate_hash user (weak_md5_password_hash md5 pass user.auth_key) ≡ b)
    × Answers roast_oscar_password (validate_roasted_pass md5 user) pass b
    × Answers roast_toc_password (validate_roasted_toc_pass md5 user) pass b
    × Answers roast_kerberos_password (validate_roasted_kerberos_pass md5 user) pass b
    × Answers roast_oscar_java_password (validate_roasted_java_pass md5 user) pass b

clear :
    (md5 : List ℕ → List ℕ) (user : User) (table pass : List ℕ) (b : Bool)
    → 0 < length table
    → All IsByte table
    → All IsByte pass
    → validate_plaintext_pass md5 user pass ≡ b
    → (q : List ℕ) × (roast_pass pass table ≡ some q)
      × (if_clear md5 user (roast_pass q table) ≡ some b)
unfolding validate_plaintext_pass
clear md5 user table pass b h hs hp e =
    let (q, there, back, l) = roast_pass-roast_pass table pass h hs hp in
    (q, there, rw (back, e) refl)

all_answer :
    (md5 : List ℕ → List ℕ) (user : User) (pass : List ℕ) (b : Bool)
    → All IsByte pass
    → validate_plaintext_pass md5 user pass ≡ b
    → validate_hash user (weak_md5_password_hash md5 pass user.auth_key) ≡ b
    → AllAnswer md5 user pass b
unfolding validate_roasted_pass validate_roasted_toc_pass validate_roasted_kerberos_pass
    validate_roasted_java_pass roast_oscar_password roast_kerberos_password
    roast_oscar_java_password roast_toc_password
all_answer md5 user pass b hp e h = (
  e,
  h,
  clear md5 user oscar_table pass b (omega arith) (omega arith) hp e,
  clear md5 user toc_table pass b (omega arith) (omega arith) hp e,
  clear md5 user kerberos_table pass b (omega arith) (omega arith) hp e,
  clear md5 user oscar_java_table pass b (omega arith) (omega arith) hp e,
)

true_or_right : (a b : Bool) → b ≡ true → (a || b) ≡ true
true_or_right true b h = refl
true_or_right false b h = h

-- A password of a length that the kind of account allows is hashed without an error, and then each of
-- the tests accepts it: in plain text, as its weak hash and roasted in any of the four ways; the
-- strong hash is accepted too.
pub hash_password-accepts :
    (md5 : List ℕ → List ℕ) (user : User) (passwd : List ℕ)
    → validate_password user passwd ≡ true
    → All IsByte passwd
    → (user' : User) × (hash_password md5 user passwd ≡ (user', true))
      × (validate_hash user' (strong_md5_password_hash md5 passwd user.auth_key) ≡ true)
      × AllAnswer md5 user' passwd true
unfolding hash_password validate_hash validate_plaintext_pass
hash_password-accepts md5 user passwd h hp =
    let strong = strong_md5_password_hash md5 passwd user.auth_key in
    let weak = weak_md5_password_hash md5 passwd user.auth_key in
    let user' = record user { weak_md5_pass = weak; strong_md5_pass = strong } in
    (
      user',
      rw h refl,
      rw (bytes_eq_refl strong) refl,
      all_answer md5 user' passwd true hp (bytes_eq_refl weak)
          (true_or_right _ _ (bytes_eq_refl weak)),
    )

-- After a password was hashed, another one whose weak hash is neither of the two hashes of the first is
-- refused by each of the tests.
pub hash_password-refuses :
    (md5 : List ℕ → List ℕ) (user : User) (passwd other : List ℕ)
    → validate_password user passwd ≡ true
    → All IsByte other
    → weak_md5_password_hash md5 passwd user.auth_key
      ≢ weak_md5_password_hash md5 other user.auth_key
    → strong_md5_password_hash md5 passwd user.auth_key
      ≢ weak_md5_password_hash md5 other user.auth_key
    → AllAnswer md5 (hash_password md5 user passwd).0 other false
unfolding hash_password validate_hash validate_plaintext_pass
hash_password-refuses md5 user passwd other h hp weak strong =
    let user' = record user {
      weak_md5_pass = weak_md5_password_hash md5 passwd user.auth_key;
      strong_md5_pass = strong_md5_password_hash md5 passwd user.auth_key;
    } in
    let e = bytes_eq-ne _ _ weak in
    let e' = bytes_eq-ne _ _ strong in
    rw h (all_answer md5 user' other false hp e (rw (e, e') refl))
