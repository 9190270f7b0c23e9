-- ===== src/Samples/Guards.antt =====
-- A package variable `mu sync.Mutex` that is locked before a write: `mu.Lock()` in block 0 and
-- `p.f = …` in block 1, with `p` value 0, `mu` value 1 and `&p.f` value 3.
use safetylint.Base.{
  ℕ, zero, suc, ◌≡◌, ◌≤◌, ◌<◌, refl, arith, Bool, true, false, [], ◌∷◌, ◌++◌, none, some, List,
  Memᴰ, ℕ_discrete, if◌then◌else◌, ◌==◌,
}
use safetylint.Ssa.{
  Program, ValueView, InstrView, global, parameter, field_addr, store, ret, IsWellFounded, operand,
}
use safetylint.Guard.{GuardKey, GuardKey-discrete}
use safetylint.Hold.{get, agrees, hold_read, hold_write}
use safetylint.Flow.{Tables}
use safetylint.MustHold.Step.{key, Held}
use safetylint.MustHold.Since.{HeldSince}
use safetylint.MustHold.Ways.{
  Way, Events, start, step, entered, ran, passed, event_gives, event_drops,
}
use safetylint.MustHold.Trace.{must_hold_since}
use safetylint.MustHold.Tables.{Results, hold_tables, top_tables}
use safetylint.MustHold.Sound.{StandsOnce}
use safetylint.Structural.{DataAccess}
use safetylint.Access.{Access, is_object_init_store, field_index_of}
use safetylint.Access.Drop.{prepare_guard_accesses}
use safetylint.Partition.Disjoint.{MeetsAll}
use safetylint.Guarded.{
  cell_key, free_standing_mutex_cells, free_standing_mutex_guards, field_partitioned_guards,
  field_candidates, accesses_guarded,
}
use safetylint.Guarded.Exclude.{IsReached, HeldOnWay, free_standing_mutex_guards_exclude}
use safetylint.Guarded.Fields.{Reason, OfField, field_partitioned_guards_sound}
use safetylint.Guarded.Cascade.{Verdict, accesses_guarded_sound}
use safetylint.Samples.{sample, sample-IsWellFounded, instr_views}

abbrev values : ℕ → ValueView ℕ ℕ
values zero = parameter
values (suc zero) = global
values (suc (suc (suc zero))) = field_addr 0 0
values _ = ValueView.other

abbrev steps : ℕ → InstrView ℕ ℕ
steps zero = instr_views 0
steps (suc zero) = store 3 9
steps _ = ret

abbrev globals : Program
globals = record sample {
  view = values;
  instr_view = steps;
  type_of = λ v. if v == 1 then 3 else 4;
  func_pkg = λ f. some 0;
  member_globals = λ p. 1 ∷ [];
}

abbrev both : List ℕ
both = 0 ∷ 1 ∷ []

abbrev tables : Tables (Held globals) (Results globals)
tables = elim (hold_tables globals 0 both []) [ none ↦ top_tables globals 0 both [] | some t ↦ t ]

tables_found : hold_tables globals 0 both [] ≡ some tables
unfolding hold_tables ℕ_discrete GuardKey-discrete agrees get
tables_found = refl

abbrev analyse : ℕ → Results globals
analyse fn = tables.noted

abbrev write_f : DataAccess ℕ ℕ
write_f = record { instr = 1; addr = 3; write = true }

accepted : free_standing_mutex_guards globals analyse (write_f ∷ []) (0 ∷ []) false ≡ true
unfolding free_standing_mutex_guards hold_tables ℕ_discrete GuardKey-discrete agrees get
accepted = refl

globals-operand_lt : (v w : ℕ) → operand (values v) ≡ some w → w < v
globals-operand_lt zero w e = cc
globals-operand_lt (suc zero) w e = cc
globals-operand_lt (suc (suc zero)) w e = cc
globals-operand_lt (suc (suc (suc zero))) w e = ground arith
globals-operand_lt (suc (suc (suc (suc v)))) w e = cc

globals-IsWellFounded : IsWellFounded globals
globals-IsWellFounded = record {
  operand_lt = globals-operand_lt;
  pointer_lt = IsWellFounded.pointer_lt sample-IsWellFounded;
}

globals-MeetsAll : MeetsAll globals
globals-MeetsAll = λ A xs x m. m

-- control goes from block 0, which locks, into block 1
abbrev events : Events globals both
events = entered 0 ∷ ran 0 ∷ passed 0 1 ∷ []

way : Way globals both 0 1 events
way = step 1 start (Memᴰ.head refl) (Memᴰ.tail (Memᴰ.head refl)) (Memᴰ.head refl)

write_once : StandsOnce globals 0 both [] 1 [] 1
write_once c [] post m e = (ground arith, refl)
write_once c (x ∷ []) post m e = cc
write_once c (x ∷ y ∷ pre) post m e = cc

abbrev reached : IsReached globals analyse write_f
reached = record {
  parent = 0;
  entry = 0;
  init = [];
  tables = tables;
  block = 1;
  to_block = events;
  before = [];
  behind = [];
  has_parent = refl;
  ends = tables_found;
  has_results = refl;
  init-IsWf = tt;
  no_preds = refl;
  way = way;
  is_block = Memᴰ.tail (Memᴰ.head refl);
  place = refl;
  once = write_once;
}

abbrev mu : GuardKey ℕ
mu = cell_key globals 1

noted : tables.noted 1 ≡ some ((mu, hold_write) ∷ [])
unfolding hold_tables ℕ_discrete GuardKey-discrete agrees get
noted = refl

read_held : hold_write ≤ get (key globals) ((mu, hold_write) ∷ []) mu
unfolding get ℕ_discrete GuardKey-discrete
read_held = omega arith

must_hold_since_example :
    HeldSince
      (event_gives globals both mu)
      (event_drops globals both mu)
      hold_write
      (events ++ [])
      (get (key globals) [] mu)
must_hold_since_example =
    must_hold_since globals both hold_write (omega arith) (omega arith) mu 0 [] tables tables_found
      tt refl 1 events [] [] 1 way (Memᴰ.tail (Memᴰ.head refl)) refl write_once
      ((mu, hold_write) ∷ []) noted read_held

free_standing_mutex_guards_exclude_example :
    (cell : ℕ) × Memᴰ cell (free_standing_mutex_cells globals (0 ∷ []) false)
    × HeldOnWay globals analyse reached hold_write cell
    × HeldOnWay globals analyse reached hold_read cell
free_standing_mutex_guards_exclude_example =
    free_standing_mutex_guards_exclude globals analyse (write_f ∷ []) (0 ∷ []) false write_f write_f
      accepted (Memᴰ.head refl) (Memᴰ.head refl) refl reached reached

by_field : field_partitioned_guards globals analyse 0 (write_f ∷ []) (0 ∷ []) ≡ true
unfolding field_partitioned_guards hold_tables ℕ_discrete GuardKey-discrete agrees get
by_field = refl

field_partitioned_guards_sound_example :
    ((k : ℕ)
      → Reason globals analyse
          (0 ∷ [])
          (field_candidates globals 0 (write_f ∷ []))
          (OfField globals analyse (write_f ∷ []) k))
    × ((acc : Access globals)
        → Memᴰ acc (write_f ∷ [])
        → field_index_of globals acc ≡ none
        → acc.write ≡ true
        → is_object_init_store globals acc ≡ true)
field_partitioned_guards_sound_example =
    field_partitioned_guards_sound globals analyse globals-IsWellFounded globals-MeetsAll 0
      (write_f ∷ []) (0 ∷ []) by_field

abbrev no_affine : ℕ → List (Access globals) → Bool
no_affine root accs = false

whole_cascade : accesses_guarded globals analyse no_affine 0 (write_f ∷ []) (0 ∷ []) ≡ true
unfolding accesses_guarded hold_tables ℕ_discrete GuardKey-discrete agrees get
whole_cascade = refl

accesses_guarded_sound_example :
    Verdict globals analyse no_affine 0
      (0 ∷ [])
      (prepare_guard_accesses globals analyse (write_f ∷ []))
accesses_guarded_sound_example =
    accesses_guarded_sound globals analyse globals-IsWellFounded globals-MeetsAll no_affine 0
      (0 ∷ []) (write_f ∷ []) whole_cascade
