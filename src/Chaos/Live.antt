-- ===== src/Chaos/Live.antt =====
-- The harness of src/bin/chaos.rs between two operations: what its own fields have to do with the
-- tracker of its device, the metadata file and the bytes of the backing file.
use ublkera.Base.{
  ℕ, arith, ◌+◌, ◌%◌, ◌^◌, ◌<◌, ◌≤◌, ◌≡◌, ◌≢◌, ◌⊎◌, true, false, Option, none, some, List, [], ◌∷◌,
  length, get_or,
}
use ublkera.Era.{EraState, is_power_below}
use ublkera.Era.Valid.{IsValid}
use ublkera.Era.Mark.{era_at}
use ublkera.Meta.{encode}
use ublkera.Meta.Save.{Disk}
use ublkera.Manager.{up, deleted}
use ublkera.Manager.Generation.{show_hex}
use ublkera.Ctl.{Luck}
use ublkera.Ctl.Session.{managed, daemon, Takes}
use ublkera.Chaos.{Harness}

-- The settings of a run.
pub record Config : Type 0 where
  pub backing : ℕ
  pub meta : ℕ
  pub size : ℕ
  pub gran : ℕ

-- A cursor as the harness keeps it, with the text of the generation.
abbrev pub shown : Option (ℕ × ℕ) → Option (List ℕ × ℕ)
shown none = none
shown (some (g, e)) = some (show_hex g, e)

-- A harness with one device attached.
abbrev pub live :
    (c : Config) (id : ℕ) (st : EraState) (strays : List (Option ℕ × EraState)) (d : Disk)
    (image expected shadow : List ℕ) (cursor : Option (ℕ × ℕ))
    → Harness
live c id st strays d image expected shadow cursor = record {
  backing = c.backing;
  meta = c.meta;
  size = c.size;
  gran = c.gran;
  dev_id = some id;
  generation = show_hex st.generation;
  expected = expected;
  shadow = shadow;
  cursor = shown cursor;
  alive = true;
  daemon = daemon (managed id c.backing c.meta st ∷ []) strays d;
  image = image;
}

-- A harness with no device, before `attach`.
abbrev pub idle :
    (c : Config) (gen : List ℕ) (strays : List (Option ℕ × EraState)) (d : Disk)
    (image expected shadow : List ℕ) (cursor : Option (ℕ × ℕ))
    → Harness
idle c gen strays d image expected shadow cursor = record {
  backing = c.backing;
  meta = c.meta;
  size = c.size;
  gran = c.gran;
  dev_id = none;
  generation = gen;
  expected = expected;
  shadow = shadow;
  cursor = shown cursor;
  alive = true;
  daemon = daemon [] strays d;
  image = image;
}

-- A valid tracker for the device of the run.
pub record Tracks (c : Config) (st : EraState) : Type 0 where
  pub valid : IsValid st
  pub gran : st.granularity ≡ c.gran
  pub sized : st.dev_size ≡ c.size
  pub gen : st.generation < 2 ^ 64
  pub started : 0 < st.current_era

-- The metadata file has a tracker of the same history and era, unclean, and takes saves.
pub record Stored (c : Config) (st : EraState) (d : Disk) : Type 0 where
  pub saved : EraState
  pub tracks : Tracks c saved
  pub generation : saved.generation ≡ st.generation
  pub current_era : saved.current_era ≡ st.current_era
  pub there : d.file c.meta ≡ some (encode saved false)
  pub takes : Takes c.meta d

-- Every byte in which the backup differs from the device has a newer stamp than the cursor.
abbrev pub Behind : Config → EraState → (image shadow : List ℕ) → (era : ℕ) → Type 0
Behind c st image shadow era =
    (b : ℕ) → b < c.size → (get_or shadow b 0 ≡ get_or image b 0) ⊎ (era < era_at st b)

-- A cursor of this history is over, and the backup is behind it.
abbrev pub Synced : Config → EraState → (image shadow : List ℕ) → (cursor : Option (ℕ × ℕ)) → Type 0
Synced c st image shadow cursor =
    (g e : ℕ)
    → cursor ≡ some (g, e)
    → g ≡ st.generation
    → (e < st.current_era) × Behind c st image shadow e

-- A generation that is none of those drawn so far.
abbrev pub Unseen : ℕ → List ℕ → Type 0
Unseen g [] = Unit
Unseen g (x ∷ xs) = (g ≢ x) × Unseen g xs

-- A generation that was drawn.
abbrev pub Seen : List ℕ → ℕ → Type 0
Seen gens g = (x : ℕ) → Unseen x gens → x ≢ g

abbrev pub Known : List ℕ → Option (ℕ × ℕ) → Type 0
Known gens cursor = (g e : ℕ) → cursor ≡ some (g, e) → (g < 2 ^ 64) × Seen gens g

-- The state of a live harness. `n` is how many checkpoints the era counter has room for, `gens` are
-- the generations drawn so far.
pub record Sound (c : Config) (n : ℕ) (gens : List ℕ) (st : EraState) (d : Disk)
    (image shadow : List ℕ) (cursor : Option (ℕ × ℕ)) : Type 0 where
  pub tracks : Tracks c st
  pub stored : Stored c st d
  pub image_size : length image ≡ c.size
  pub shadow_size : length shadow ≡ c.size
  pub synced : Synced c st image shadow cursor
  pub seen : Seen gens st.generation
  pub known : Known gens cursor
  pub room : st.current_era + n < 2 ^ 32

-- A live harness, whose `expected` is what the backing file holds.
pub record Live (c : Config) (n : ℕ) (gens : List ℕ) (h : Harness) : Type 0 where
  pub id : ℕ
  pub st : EraState
  pub strays : List (Option ℕ × EraState)
  pub disk : Disk
  pub image : List ℕ
  pub shadow : List ℕ
  pub cursor : Option (ℕ × ℕ)
  pub shape : h ≡ live c id st strays disk image image shadow cursor
  pub sound : Sound c n gens st disk image shadow cursor

-- The system around the daemon lets a device up and down, and the backing file has its size.
pub record Suits (c : Config) (k : Luck) : Type 0 where
  pub id : ℕ
  pub starts : k.startup ≡ up id
  pub deletes : (i : ℕ) → k.fate i ≡ deleted
  pub sized : k.world.size_of c.backing ≡ some c.size
  pub gen : k.gen < 2 ^ 64

-- A size and a granularity that the harness and the daemon take.
pub record Sized (c : Config) : Type 0 where
  pub blocks : 4096 ≤ c.size
  pub whole : c.size % 4096 ≡ 0
  pub small : c.size < 2 ^ 64
  pub power : is_power_below 64 c.gran ≡ true
  pub grain : 4096 ≤ c.gran

-- Room for no more checkpoints, and no fewer generations drawn.
pub Live-weaken :
    {c : Config} {m n : ℕ} {gens gens' : List ℕ} {h : Harness}
    → m ≤ n
    → ((x : ℕ) → Unseen x gens' → Unseen x gens)
    → Live c n gens h
    → Live c m gens' h
Live-weaken less more l = record {
  id = l.id;
  st = l.st;
  strays = l.strays;
  disk = l.disk;
  image = l.image;
  shadow = l.shadow;
  cursor = l.cursor;
  shape = l.shape;
  sound = record {
    tracks = l.sound.tracks;
    stored = l.sound.stored;
    image_size = l.sound.image_size;
    shadow_size = l.sound.shadow_size;
    synced = l.sound.synced;
    seen = λ x fresh. l.sound.seen x (more x fresh);
    known =
        λ g e at. ((l.sound.known g e at).0, λ x fresh. (l.sound.known g e at).1 x (more x fresh));
    room = omega (arith, less, l.sound.room);
  };
}
