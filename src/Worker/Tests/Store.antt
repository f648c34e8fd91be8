-- ===== src/Worker/Tests/Store.antt =====
-- A bucket held in memory, which has the documented behaviour.
use utm_curs_i_orar.Prelude.{
  ◌≡◌, ◌≢◌, refl, false, Option, none, some, [], if◌then◌else◌, any, Bool-cases, inl, inr,
}
use utm_curs_i_orar.Text.{Text, codes, text_eq}
use utm_curs_i_orar.Text.Laws.{text_eq_iff, text_eq_self}
use utm_curs_i_orar.Worker.Types.{Body, bytes}
use utm_curs_i_orar.Worker.Bucket.{Object, Cond, Meta, Upload, written, lost}
use utm_curs_i_orar.Worker.Bucket.Runs.{R2, permitted}

abbrev pub Stored : Type 0
Stored = Text → Option Object

abbrev pub object_of : Body → Meta → Object
object_of b m = record { body = b; etag = codes "e1"; size = 7; uploaded = 0; custom = m }

abbrev pub updated : Stored → Text → Option Object → Stored
updated s k o j = if text_eq k j then o else s j

abbrev pub store_body : Stored → Text → Body → Cond → Meta → Stored × Option Object
store_body s k b w m =
    if permitted w (s k)
    then (updated s k (some (object_of b m)), some (object_of b m))
    else (s, none)

abbrev pub receive_body : Stored → Text → Cond → Meta → Stored × Upload
receive_body s k w m =
    if permitted w (s k)
    then (updated s k (some (object_of (bytes []) m)), written 7)
    else (s, lost)

pub updated_other : (s : Stored) (k j : Text) (o : Option Object) → k ≢ j → updated s k o j ≡ s j
updated_other s k j o apart = elim (Bool-cases (text_eq k j)) [
  | inl e ↦ absurd (apart ((text_eq_iff k j).0 e))
  | inr e ↦ rw e refl
]

abbrev pub memory : R2
memory = record {
  State = Stored;
  look = λ s k. s k;
  store = store_body;
  receive = receive_body;
  remove = λ s ks k. if any (text_eq k) ks then none else s k;
  enumerate = λ s p d n t. record { objects = []; prefixes = []; truncated = false; next = none };
  enqueue = λ s j. s;
  store_refused = λ s k b w m e. rw e refl;
  store_made = λ s k b w m e. (object_of b m, rw e refl, rw (e, text_eq_self k) refl, refl, refl);
  store_other = λ s k j b w m apart. elim (Bool-cases (permitted w (s k))) [
    | inl e ↦ rw e (updated_other s k j _ apart)
    | inr e ↦ rw e refl
  ];
  receive_refused = λ s k w m e. rw e refl;
  receive_other = λ s k j w m apart. elim (Bool-cases (permitted w (s k))) [
    | inl e ↦ rw e (updated_other s k j _ apart)
    | inr e ↦ rw e refl
  ];
  enqueue_look = λ s j k. refl;
  remove_other = λ s ks j e. rw e refl;
}
