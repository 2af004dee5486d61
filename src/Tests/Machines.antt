-- ===== src/Tests/Machines.antt =====
-- A machine with files and at most one process, to run the hypervisors' providers on.
use flintlock.Prelude.{
  ◌≡◌, refl, ap, sym, ℕ, ◌<◌, ◌^◌, String, Bool, true, false, [], Option, none, some, arith,
}
use flintlock.Prelude.Int.{ℤ}
use flintlock.Prelude.Dict.{Dict, lookup, insert, lookup-insert_self}
use flintlock.Outcome.{Outcome, ok, fail, external, ok-injective}
use flintlock.Hypervisor.Os.{Os, Signal, signal_zero, sighup, sigterm, sigkill}
use flintlock.Hypervisor.Os.Laws.{OsLaws}

pub record Machine : Type 0 where
  pub files : Dict String
  pub alive : Bool

abbrev pub empty_machine : Machine
empty_machine = record { files = []; alive = false }

abbrev signalled : Signal → Bool → Machine → Outcome (Unit {0}) × Machine
signalled signal_zero true m = (ok tt, m)
signalled _ true m = (ok tt, record m { alive = false })
signalled _ false m = (fail (external 3), m)

abbrev held : Option String → Machine → Outcome String × Machine
held none m = (fail (external 2), m)
held (some text) m = (ok text, m)

abbrev is_there : Option String → Bool
is_there none = false
is_there (some text) = true

-- Process 7 is the one that is started.
abbrev pub machine : Os Machine
machine = record {
  exists = λ p m. (ok (is_there (lookup p m.files)), m);
  dir_exists = λ p m. (ok true, m);
  mkdir_all = λ p mode m. (ok tt, m);
  remove = λ p m. (ok tt, m);
  append_file = λ p m. (ok tt, m);
  read_all = λ p m. held (lookup p m.files) m;
  write_file = λ p text m. (ok tt, record m { files = insert p text m.files });
  start = λ detached c m. (ok 7, record m { alive = true });
  find_process = λ pid m. (ok tt, m);
  signal = λ pid sig m. signalled sig m.alive m;
  wait_process = λ pid m. (ok tt, record m { alive = false });
  wait_until_done = λ pid m. (ok true, record m { alive = false });
  is_no_child = λ e. false;
}

signalled-files : (sig : Signal) (b : Bool) (m : Machine) → (signalled sig b m).1.files ≡ m.files
signalled-files signal_zero true m = refl
signalled-files sighup true m = refl
signalled-files sigterm true m = refl
signalled-files sigkill true m = refl
signalled-files signal_zero false m = refl
signalled-files sighup false m = refl
signalled-files sigterm false m = refl
signalled-files sigkill false m = refl

abbrev text_of : Option String → Outcome String
text_of none = fail (external 2)
text_of (some text) = ok text

held_lem : (o : Option String) (m : Machine) → held o m ≡ (text_of o, m)
held_lem none m = refl
held_lem (some text) m = refl

is_there_lem : (o : Option String) (text : String) → text_of o ≡ ok text → is_there o ≡ true
is_there_lem none text h = cc
is_there_lem (some held) text h = refl

-- What it does is what is documented of a system, for each of its files; all its processes are its own.
pub machine-OsLaws : (path : String) → OsLaws machine path
machine-OsLaws path = record {
  content = λ m. text_of (lookup path m.files);
  is_there = λ m. ok (is_there (lookup path m.files));
  is_alive = λ m pid. m.alive;
  is_own = λ m pid. true;
  asked = λ m. refl;
  read = λ m. held_lem (lookup path m.files) m;
  read_there = λ t m h. ap ok (is_there_lem (lookup path m.files) t h);
  written = λ t m u h. rw (sym (λ i. (h i).1)) (ap text_of (lookup-insert_self path t m.files));
  started = λ detached c m u pid h. started_small pid (λ i. (h i).0);
  found = λ pid m. refl;
  probed = λ pid m h. rw h refl;
  not_probed = λ pid m h. (external 3, rw h refl);
  signal_keeps = λ pid sig m.
      (ap (λ files. text_of (lookup path files)) (signalled-files sig m.alive m), refl);
  waited = λ pid m u h. sym (λ i. (h i).1.alive);
  released = λ pid m u h. sym (λ i. (h i).1.alive);
  no_child = λ pid m u e own h n. cc;
  wait_until_done_keeps = λ pid m. (refl, refl);
  wait_process_keeps = λ pid m. refl;
}
  where
    started_small : (pid : ℕ) → ◌≡◌ {A = Outcome ℕ} (ok 7) (ok pid) → pid < 2 ^ 63
    started_small pid h = let same : 7 ≡ pid = ok-injective 7 pid h in omega (arith, same)

pub machine-is_alive :
    (path : String) (m : Machine) (pid : ℤ) → (machine-OsLaws path).is_alive m pid ≡ m.alive
unfolding machine-OsLaws
machine-is_alive path m pid = refl

pub machine-is_own :
    (path : String) (m : Machine) (pid : ℤ) → (machine-OsLaws path).is_own m pid ≡ true
unfolding machine-OsLaws
machine-is_own path m pid = refl
