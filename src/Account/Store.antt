-- ===== src/Account/Store.antt =====
-- The store in memory of user/user.service.ts: values and hashes by key, and the timers that remove
-- them. The keys are `pwd_otp:` and `pwd_reset_token:` with an email. A value of a hash is a string;
-- where it is `String(n)` the number stands for it.
use Prim.Native.Nat.{◌*◌}
use thunderchat_server.Base.{
  refl, sym, ap, ◌∙◌, nat_eq, nat_beq_iff, eq_refl, ℕ, ◌+◌, String, Bool, true, false, Option, none,
  some, List, [], ◌∷◌, ◌==◌, ◌↔◌, ◌≡◌, arith, if◌then◌else◌, Eq, string_eq, ltb,
}
use thunderchat_server.Base.JsMap.{Map, get, set, delete}

pub data Key : Type 0 where
  otp_key token_key : (email : String) → Key

abbrev same_key : Key → Key → Bool
same_key (otp_key a) (otp_key b) = a == b
same_key (token_key a) (token_key b) = a == b
same_key _ _ = false

pub same_key_iff : (a b : Key) → (same_key a b ≡ true) ↔ (a ≡ b)
same_key_iff (otp_key a) (otp_key b) = ground (arith, string_eq.equals_iff a b)
same_key_iff (token_key a) (token_key b) = ground (arith, string_eq.equals_iff a b)
same_key_iff (otp_key a) (token_key b) = ground arith
same_key_iff (token_key a) (otp_key b) = ground arith

instance abbrev pub key_eq : Eq Key
key_eq = record { equals = same_key; equals_iff = same_key_iff }

pub data Field : Type 0 where
  otp_hash expires_at attempts max_attempts last_sent_at : Field

abbrev field_index : Field → ℕ
field_index otp_hash = 0
field_index expires_at = 1
field_index attempts = 2
field_index max_attempts = 3
field_index last_sent_at = 4

abbrev field_at : ℕ → Field
field_at n =
    if n == 0
    then otp_hash
    else (if n == 1
        then expires_at
        else (if n == 2 then attempts else (if n == 3 then max_attempts else last_sent_at)))

field_at-field_index : (f : Field) → field_at (field_index f) ≡ f
field_at-field_index otp_hash = refl
field_at-field_index expires_at = refl
field_at-field_index attempts = refl
field_at-field_index max_attempts = refl
field_at-field_index last_sent_at = refl

abbrev same_field : Field → Field → Bool
same_field a b = field_index a == field_index b

pub same_field_iff : (a b : Field) → (same_field a b ≡ true) ↔ (a ≡ b)
same_field_iff a b = (
  λ h.
      sym (field_at-field_index a)
      ∙ ap field_at ((nat_beq_iff (field_index a) (field_index b)).0 h)
      ∙ field_at-field_index b,
  λ e. rw e (eq_refl (field_index b)),
)

instance abbrev pub field_eq : Eq Field
field_eq = record { equals = same_field; equals_iff = same_field_iff }

pub data Stored : Type 0 where
  text : String → Stored
  number : ℕ → Stored

abbrev pub Bucket : Type 0
Bucket = Map Field Stored

-- `Number(…)`: `none` is NaN.
abbrev pub number_of : Option Stored → Option ℕ
number_of (some (number n)) = some n
number_of _ = none

-- `setTimeout`: when it is due, and whether its callback removes the hash of the key too.
pub record ExpiryTimer : Type 0 where
  pub due : ℕ
  pub removes_hash : Bool

pub record KeyStore : Type 0 where
  pub key_values : Map Key String
  pub hashes : Map Key Bucket
  pub expiry_timers : Map Key ExpiryTimer

abbrev pub new_store : KeyStore
new_store = record { key_values = []; hashes = []; expiry_timers = [] }

abbrev pub clear_existing_timer : Key → KeyStore → KeyStore
clear_existing_timer key s = record s { expiry_timers = delete s.expiry_timers key }

unfoldable pub store_set_ex : Key → ℕ → String → ℕ → KeyStore → KeyStore
store_set_ex key ttl_seconds value now s =
    let t = clear_existing_timer key (record s { key_values = set s.key_values key value }) in
    record t {
      expiry_timers =
          set t.expiry_timers key (record { due = now + ttl_seconds * 1000; removes_hash = false });
    }

unfoldable pub store_get : Key → KeyStore → Option String
store_get key s = get s.key_values key

unfoldable pub store_del : Key → KeyStore → KeyStore
store_del key s =
    clear_existing_timer key
      (record s { key_values = delete s.key_values key; hashes = delete s.hashes key })

abbrev pub bucket_or_empty : Option Bucket → Bucket
bucket_or_empty none = []
bucket_or_empty (some b) = b

unfoldable pub store_hget_all : Key → KeyStore → Bucket
store_hget_all key s = bucket_or_empty (get s.hashes key)

abbrev pub set_each : List (Field × Stored) → Bucket → Bucket
set_each [] b = b
set_each ((f, v) ∷ entries) b = set_each entries (set b f v)

-- A bucket is an object that the map shares; what is set in it is set in the map.
unfoldable pub store_hset : Key → List (Field × Stored) → KeyStore → KeyStore
store_hset key entries s = record s {
  hashes = set s.hashes key (set_each entries (bucket_or_empty (get s.hashes key)));
}

-- `Number(bucket.get(field) ?? 0) + increment`, as a string.
abbrev pub incremented : Option Stored → ℕ → Stored
incremented none increment = number increment
incremented (some (number n)) increment = number (n + increment)
incremented (some (text _)) increment = text "NaN"

unfoldable pub store_hincr_by : Key → Field → ℕ → KeyStore → KeyStore
store_hincr_by key field increment s =
    let bucket = bucket_or_empty (get s.hashes key) in
    record s {
      hashes = set s.hashes key (set bucket field (incremented (get bucket field) increment));
    }

unfoldable pub store_expire : Key → ℕ → ℕ → KeyStore → KeyStore
store_expire key ttl_seconds now s =
    let t = clear_existing_timer key s in
    record t {
      expiry_timers =
          set t.expiry_timers key (record { due = now + ttl_seconds * 1000; removes_hash = true });
    }

-- The callback of the timer of a key, where it is due.
abbrev fired : Option ExpiryTimer → Key → ℕ → KeyStore → KeyStore
fired none key now s = s
fired (some t) key now s = if ltb now t.due then s else record {
  key_values = delete s.key_values key;
  hashes = if t.removes_hash then delete s.hashes key else s.hashes;
  expiry_timers = delete s.expiry_timers key;
}

unfoldable pub fire : Key → ℕ → KeyStore → KeyStore
fire key now s = fired (get s.expiry_timers key) key now s
