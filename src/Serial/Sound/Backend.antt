-- ===== src/Serial/Sound/Backend.antt =====
-- What the manager of src/serial/serial_port.c relies on in a backend.
use libzio.Base.{
  ℕ, ◌≡◌, refl, ap, sym, ◌∙◌, false, Option, none, some, List, ◌==◌, ==-true, Bool-cases, inl, inr,
  eq_of_==,
}
use libzio.Base.Int.{ℤ}
use libzio.Effects.{M, and_then, modify}
use libzio.Effects.Keeps.{After, Keeps}
use libzio.Serial.Port.{SerialBackend}
use libzio.Serial.Sound.Entries.{device_of}
use libzio.Serial.State.{Ptr, Serial, SerialWorld, LineEvent, load_ctx, change_ctx, present, trace}

-- Only the port at `p` is changed; it is not made or freed, and keeps its device.
pub record Touches (p : Ptr) (w v : SerialWorld) : Type 0 where
  pub managers : v.managers ≡ w.managers
  pub mangers : v.serial_mangers ≡ w.serial_mangers
  pub locked : v.g_mangers ≡ w.g_mangers
  pub kept : device_of (v.ports p) ≡ device_of (w.ports p)
  pub others : (q : Ptr) → (p == q) ≡ false → v.ports q ≡ w.ports q

-- The port at `p` is freed, and nothing else is changed.
pub record Frees (p : Ptr) (w v : SerialWorld) : Type 0 where
  pub managers : v.managers ≡ w.managers
  pub mangers : v.serial_mangers ≡ w.serial_mangers
  pub locked : v.g_mangers ≡ w.g_mangers
  pub gone : v.ports p ≡ none
  pub others : (q : Ptr) → (p == q) ≡ false → v.ports q ≡ w.ports q

-- A backend changes nothing but the port that it is called with, and frees it when it is told to.
pub record Behaves (backend : SerialBackend) : Type 0 where
  pub opening : (p : Ptr) (w : SerialWorld) → After (λ _. Touches p w) (backend.open_port p w)
  pub reading :
      (p : Ptr) (len : ℕ) (t : ℤ) (w : SerialWorld)
      → After (λ _. Touches p w) (backend.read_port p len t w)
  pub writing :
      (p : Ptr) (buf : List ℕ) (w : SerialWorld)
      → After (λ _. Touches p w) (backend.write_port p buf w)
  pub cleaning : (p : Ptr) (w : SerialWorld) → After (λ _. Touches p w) (backend.clean p w)
  pub closing : (p : Ptr) (w : SerialWorld) → After (λ _. Touches p w) (backend.close_port p w)
  pub destroying : (p : Ptr) (w : SerialWorld) → After (λ _. Frees p w) (backend.destory p w)

pub touched_itself : (p : Ptr) (w : SerialWorld) → Touches p w w
touched_itself p w = record {
  managers = refl;
  mangers = refl;
  locked = refl;
  kept = refl;
  others = λ q e. refl;
}

pub device-Touches :
    (p : Ptr) {w v : SerialWorld}
    → Touches p w v
    → (q : Ptr) → device_of (v.ports q) ≡ device_of (w.ports q)
device-Touches p {w} {v} t q = elim (Bool-cases (p == q)) [
  | inl here ↦
      let same : p ≡ q = eq_of_== p q here in
      ap (λ r. device_of (v.ports r)) (sym same) ∙ t.kept ∙ ap (λ r. device_of (w.ports r)) same
  | inr other ↦ ap device_of (t.others q other)
]

module _ {B : Type 0} (Q : B → SerialWorld → Type 0) where
  pub load_ctx-After :
      (p : Ptr) (f : Serial → M SerialWorld B) (w : SerialWorld)
      → ((s : Serial) → w.ports p ≡ some s → After Q (f s w))
      → After Q (and_then (load_ctx p w) f)
  unfolding load_ctx
  load_ctx-After p f w h = by_port (w.ports p) refl
    where
      by_port : (o : Option Serial) → w.ports p ≡ o → After Q (and_then (present o w) f)
      by_port none e = tt
      by_port (some s) e = h s e

module _ (w : SerialWorld) where
  pub change_ctx-Touches :
      (p : Ptr) (f : Serial → Serial)
      → ((s : Serial) → (f s).backend_data.device ≡ s.backend_data.device)
      → Keeps (Touches p w) (change_ctx p f)
  unfolding change_ctx
  change_ctx-Touches p f same v t =
      load_ctx-After (λ _. Touches p w) p _ v
        λ s e. record {
          managers = t.managers;
          mangers = t.mangers;
          locked = t.locked;
          kept = rw (==-true p p refl) (ap some (same s) ∙ sym (ap device_of e) ∙ t.kept);
          others = λ q other. rw other (t.others q other);
        }

  pub trace-Touches : (p : Ptr) (e : LineEvent) → Keeps (Touches p w) (modify (trace e))
  trace-Touches p e v t = record {
    managers = t.managers;
    mangers = t.mangers;
    locked = t.locked;
    kept = t.kept;
    others = t.others;
  }
