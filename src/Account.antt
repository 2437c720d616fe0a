-- ===== src/Account.antt =====
-- The accounts of the users, and the store in memory of the codes that reset a password:
-- user/user.service.ts and auth/, with prisma/schema.prisma.
pub mod Store
pub mod Passwords
use thunderchat_server.Base.{ℕ, String, Bool, true, false, ◌≡◌, List, ◌==◌, nat_eq, string_eq}
use thunderchat_server.Base.Prisma.{Client}
use thunderchat_server.Account.Store.{KeyStore}

pub data AppRole : Type 0 where
  admin user : AppRole

pub record Account : Type 0 where
  pub id : ℕ
  pub email : String
  pub password : String
  pub role : AppRole

-- `email String @unique`
abbrev pub same_email : Account → Account → Bool
same_email a b = a.email == b.email

abbrev pub has_account_id : ℕ → Account → Bool
has_account_id id a = a.id == id

abbrev pub has_email : String → Account → Bool
has_email email a = a.email == email

-- What the libraries `bcryptjs` and `nodemailer` give: a password always matches its own hash, with
-- any salt, and a hash is no empty string; a mail is accepted or rejected.
pub record Libraries : Type 0 where
  pub hash : (password : String) → (salt : String) → String
  pub compare : (password : String) → (encrypted : String) → Bool
  pub compare-hash : (password salt : String) → compare password (hash password salt) ≡ true
  pub hash_nonempty : (password salt : String) → (hash password salt == "") ≡ false
  pub send_mail : (email : String) → (otp : String) → Bool

-- The tables and the store, and the mails sent, the newest first.
pub record AccountDb : Type 0 where
  pub users : List Account
  pub store : KeyStore
  pub mails : List (String × String)

abbrev pub AccountClient : Type 0
AccountClient = Client Account same_email
