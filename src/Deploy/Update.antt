-- ===== src/Deploy/Update.antt =====
-- deploy/update.py: the installation, the receipt of an update, and what the outside decides. The
-- children hold the methods of `Update` and their proofs.
pub mod Service
pub mod Backup
pub mod Apply
pub mod Restoring
pub mod Looks
pub mod Backing
pub mod Writes
pub mod Undo
pub mod Undone
pub mod Rollback
mod Samples
use macqueue.Base.{
  ℕ, String, Bool, true, false, not, ◌&&◌, ◌||◌, Option, none, some, List, [], ◌∷◌, ◌==◌, nat_eq,
  string_eq, leb, if◌then◌else◌, Eq, ok, ◌≡◌, refl, ◌↔◌, arith,
}
use macqueue.Base.Files.{Files, find_file}
use macqueue.Base.Text.{starts_with, drop_prefix}
use macqueue.Base.Actions.{Action, ◌>>=◌, ◌>>◌, return, check, reads}
use Prim.Native.Char.{code}
use text.Mathlib.TextEquality.{eq_iff}

-- A file with its owner, group and permission bits, or a symbolic link.
pub record File : Type 0 where
  pub bytes : List ℕ
  pub uid : ℕ
  pub gid : ℕ
  pub mode : ℕ
  pub is_link : Bool

-- An entry of receipt['files']: digests before and after, `none` where there is no file.
pub record Item : Type 0 where
  pub before : Option String
  pub after : Option String
  pub uid : ℕ
  pub gid : ℕ
  pub mode : ℕ

pub data Status : Type 0 where
  prepared installed rolled_back : Status

pub record Receipt : Type 0 where
  pub installation_id : String
  pub status : Status
  pub was_paused : Bool
  pub files : Files Item
  pub probe_report : Option String

-- `targets` are the files by the names that `Update.target` accepts; `before` and `receipt` are the
-- directory of the update at hand; `running` says whether launchd or systemd has the service.
pub record Machine : Type 0 where
  pub mac : Bool
  pub installation_id : String
  pub gid : ℕ
  pub targets : Files File
  pub before : Files (List ℕ)
  pub receipt : Option Receipt
  pub paused : Bool
  pub running : Bool

-- What a call finds outside: the looks at ACTIVE.json, at the lock and at the log by their number,
-- the exit codes of launchctl or systemctl, and which writes succeed.
pub record Outside : Type 0 where
  pub active : ℕ → Bool
  pub stops : Bool
  pub locked : ℕ → Bool
  pub starts : Bool
  pub ready : ℕ → Bool
  pub is_active : Bool
  pub gui_session : Bool
  pub writable : String → Bool
  pub saves : ℕ → Bool

abbrev pub same_digest : Option String → Option String → Bool
same_digest none none = true
same_digest (some a) (some b) = a == b
same_digest _ _ = false

pub same_digest_iff : (a b : Option String) → (same_digest a b ≡ true) ↔ (a ≡ b)
same_digest_iff none none = ((λ _. refl), (λ _. refl))
same_digest_iff none (some b) = ((λ h. cc), (λ h. cc))
same_digest_iff (some a) none = ((λ h. cc), (λ h. cc))
same_digest_iff (some a) (some b) = ground (arith, eq_iff a b)

instance abbrev pub digest_eq : Eq (Option String)
digest_eq = record { eqb = same_digest; eqb_iff = same_digest_iff }

abbrev is_word : ℕ → Bool
is_word c = leb b'a' c && leb c b'z' || c == b'_'

-- `[a-z_]*\.py`, and `[a-z_]+\.py` after a first character.
abbrev is_script : Bool → String → Bool
is_script begun String.[] = false
is_script begun (String.◌∷◌ c s) =
    begun && String.◌∷◌ c s == ".py" || is_word (code c) && is_script true s

-- `re.fullmatch(r'macqueue/[a-z_]+\.py', name)`
abbrev pub is_module : String → Bool
is_module name = starts_with name "macqueue/" && is_script false (drop_prefix name "macqueue/")

abbrev pub config_name : String
config_name = "config/worker.json"

abbrev pub is_target : Bool → String → Bool
is_target mac name =
    (is_module name
      || name == "agent.py"
      || name == "rollout-probe.py"
      || name == "source-probe.py"
      || name == config_name)
    && (if name == config_name then mac else true)

unfoldable pub target : String → Action Machine (Unit {0})
target name s = check (is_target s.mac name) "invalid update target" s

pub target_lem :
    (name : String) (s : Machine) → is_target s.mac name ≡ true → target name s ≡ (ok tt, s)
unfolding target check
target_lem name s h = rw h refl

module _ (sha256 : List ℕ → String) where
  abbrev pub digest_of : Option File → Option String
  digest_of none = none
  digest_of (some f) = some (sha256 f.bytes)

  abbrev pub current_of : Option File → Action Machine (Option String)
  current_of none = return none
  current_of (some f) = do check (not f.is_link) "symlink"; return (some (sha256 f.bytes))

  unfoldable pub current : String → Action Machine (Option String)
  current name s = current_of (find_file name s.targets) s

  -- No link stands in the place of a file.
  abbrev pub NoLink : Option File → Type 0
  NoLink none = Unit
  NoLink (some f) = f.is_link ≡ false

  current_of-NoLink :
      (found : Option File) (s : Machine)
      → NoLink found
      → current_of found s ≡ (ok (digest_of found), s)
  unfolding ◌>>◌ check return
  current_of-NoLink none s h = refl
  current_of-NoLink (some f) s h = rw h refl

  pub current-NoLink :
      (name : String) (s : Machine)
      → NoLink (find_file name s.targets)
      → current name s ≡ (ok (digest_of (find_file name s.targets)), s)
  unfolding current
  current-NoLink name s h = current_of-NoLink (find_file name s.targets) s h
