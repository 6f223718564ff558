-- ===== src/Jobs/Step/Change.antt =====
-- What every step on the jobs but a claim is: each row goes on under its id, with the same place in
-- its sprint run, and no step but a claim makes a job held or open that was not.
use mathlib.Core.Option
use scrum4me_mcp.Prelude.{
  ◌≡◌, refl, sym, ap, ◌∙◌, subst, String, true, Option, none, some, arith, find_by, find_by-map,
  find_by-id, HasKeys, map-HasKeys, map, update_by, update_by-map, updated, Bool-cases, inl, inr,
  ◌==◌, eq_iff,
}
use scrum4me_mcp.Jobs.Table.{JobRow, Db, job_of}
use scrum4me_mcp.Jobs.Step.{is_held, is_open}

pub record Keeps (a b : JobRow) : Type 0 where
  pub same_id : b.id ≡ a.id
  pub same_run : b.sprint_run_id ≡ a.sprint_run_id
  pub same_sequence : b.sprint_sequence ≡ a.sprint_sequence
  pub same_kind : b.kind ≡ a.kind
  pub stays_held : is_held b ≡ true → is_held a ≡ true
  pub stays_open : is_open b ≡ true → is_open a ≡ true

pub Keeps-refl : (a : JobRow) → Keeps a a
Keeps-refl a = record {
  same_id = refl;
  same_run = refl;
  same_sequence = refl;
  same_kind = refl;
  stays_held = λ h. h;
  stays_open = λ h. h;
}

abbrev pub IsKeyed : Db → Type 0
IsKeyed db = HasKeys (λ j. j.id) db.jobs

-- The row that is stored under an id now goes on from the one that was stored under it.
pub record Change (db db' : Db) : Type 0 where
  pub keyed : IsKeyed db → IsKeyed db'
  pub from :
      (i : String) {b : JobRow}
      → job_of db' i ≡ some b
      → (a : JobRow) × (job_of db i ≡ some a) × Keeps a b

map_inverse :
    {A B : Type 0} (f : A → B) (o : Option A) {b : B}
    → Option.map f o ≡ some b
    → (a : A) × (o ≡ some a) × (b ≡ f a)
map_inverse f none h = cc
map_inverse f (some a) h = (a, refl, cc)

pub Change-same : (db db' : Db) → db'.jobs ≡ db.jobs → Change db db'
Change-same db db' e = record {
  keyed = λ k. subst (HasKeys (λ (j : JobRow). j.id)) (sym e) k;
  from = λ i {b} h. (b, ap (find_by (λ (j : JobRow). j.id) i) (sym e) ∙ h, Keeps-refl b);
}

-- A step that changes every row on its own.
pub Change-map :
    (db db' : Db) (g : JobRow → JobRow)
    → ((j : JobRow) → job_of db j.id ≡ some j → Keeps j (g j))
    → ((j : JobRow) → (g j).id ≡ j.id)
    → db'.jobs ≡ map g db.jobs
    → Change db db'
Change-map db db' g keeps ids e = record {
  keyed = λ k.
      subst (HasKeys (λ (j : JobRow). j.id)) (sym e)
        (map-HasKeys (λ (j : JobRow). j.id) g ids db.jobs k);
  from = λ i {b} h.
      let (a, found, at) = map_inverse g (job_of db i) (
        sym (find_by-map (λ (j : JobRow). j.id) g ids i db.jobs)
        ∙ ap (find_by (λ (j : JobRow). j.id) i) (sym e)
        ∙ h) in
      let here = ap (job_of db) (find_by-id (λ (j : JobRow). j.id) i db.jobs found) ∙ found in
      (a, found, subst (Keeps a) (sym at) (keeps a here));
}

-- A step that writes the row of an id.
pub Change-update :
    (db db' : Db) (id : String) (g : JobRow → JobRow)
    → ((j : JobRow) → job_of db id ≡ some j → Keeps j (g j))
    → ((j : JobRow) → (g j).id ≡ j.id)
    → db'.jobs ≡ update_by (λ j. j.id) id g db.jobs
    → Change db db'
Change-update db db' id g keeps ids e =
    Change-map db db' (updated (λ (j : JobRow). j.id) id g)
      (λ j here. elim (Bool-cases (j.id == id)) [
        | inl same ↦ rw same (keeps j (ap (job_of db) (sym ((eq_iff j.id id).0 same)) ∙ here))
        | inr other ↦ rw other (Keeps-refl j)
      ])
      (λ j. ground (arith, ids j)) (e ∙ update_by-map (λ (j : JobRow). j.id) id g db.jobs)

pub Change-trans : {a b c : Db} → Change a b → Change b c → Change a c
Change-trans f g = record {
  keyed = λ k. g.keyed (f.keyed k);
  from = λ i h.
      let (y, at_y, k) = g.from i h in
      let (x, at_x, l) = f.from i at_y in
      (
        x,
        at_x,
        record {
          same_id = k.same_id ∙ l.same_id;
          same_run = k.same_run ∙ l.same_run;
          same_sequence = k.same_sequence ∙ l.same_sequence;
          same_kind = k.same_kind ∙ l.same_kind;
          stays_held = λ p. l.stays_held (k.stays_held p);
          stays_open = λ p. l.stays_open (k.stays_open p);
        },
      );
}
