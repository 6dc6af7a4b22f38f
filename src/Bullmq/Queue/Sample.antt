-- ===== src/Bullmq/Queue/Sample.antt =====
-- A Redis server that answers every request, with a clock that stands still, for the tests.
use omnivore_go.Prelude.{
  ℕ, suc, Text, text_eq, true, false, [], ◌∷◌, Option, none, some, ◌≡◌, refl, sym, ap, ◌∙◌,
}
use omnivore_go.Prelude.Int.{format_nat, read_digits, read_digits-format_nat}
use omnivore_go.Bullmq.Redis.{
  Redis, View, hash_get, hash_set, fields_of, apply_all, move_to_active, present, put,
}
use omnivore_go.Bullmq.Queue.{Json, JobOpts}

unfoldable pub number_in : Option Text → ℕ
number_in none = 0
number_in (some t) = elim (read_digits 0 false t) [ none ↦ 0 | some n ↦ n ]

pub number_in-format_nat : (n : ℕ) → number_in (some (format_nat n)) ≡ n
unfolding number_in
number_in-format_nat n = let e = read_digits-format_nat n in rw (number_in, e)

pub number_in-none : number_in none ≡ 0
unfolding number_in
number_in-none = refl

abbrev pub count : Text → View → Option ℕ × View
count k v =
    (some (suc (v.counters k)), record v { counters = put v.counters k (suc (v.counters k)) })

abbrev pub raise : Text → Text → View → Option ℕ × View
raise k f v =
    let n : ℕ = suc (number_in (hash_get f (fields_of (v.hashes k)))) in
    (
      some n,
      record v {
        hashes = put v.hashes k (some (hash_set f (format_nat n) (fields_of (v.hashes k))));
      },
    )

pub answered {ℓ} : {A : Type ℓ} (a b : A) → some a ≡ some b → b ≡ a
answered a b e = cc

raised : (n m : ℕ) → some n ≡ some m → n ≡ m
raised n m e = cc

pub count-both :
    (k : Text) (v v' : View) (n : ℕ)
    → count k v ≡ (some n, v')
    → (n ≡ suc (v.counters k)) × (v' ≡ record v { counters = put v.counters k n })
count-both k v v' n e =
    let first = raised (suc (v.counters k)) n (ap (λ r. r.0) e) in
    (sym first, sym (ap (λ r. r.1) e) ∙ ap (λ m. record v { counters = put v.counters k m }) first)

pub raise-both :
    (k f : Text) (v v' : View) (n : ℕ)
    → raise k f v ≡ (some n, v')
    → (n ≡ suc (number_in (hash_get f (fields_of (v.hashes k)))))
      × (v' ≡ record v {
        hashes = put v.hashes k (some (hash_set f (format_nat n) (fields_of (v.hashes k))));
      })
raise-both k f v v' n e =
    let first =
      raised (suc (number_in (hash_get f (fields_of (v.hashes k))))) n (ap (λ r. r.0) e) in
    (
      sym first,
      sym (ap (λ r. r.1) e)
          ∙ ap
              (λ m. record v {
                hashes = put v.hashes k (some (hash_set f (format_nat m) (fields_of (v.hashes k))));
              })
              first,
    )

pub script-both :
    (w p a : Text) (v v' : View) (r : Option Text)
    → ◌≡◌ {A = Option (Option Text) × View}
        (some ((move_to_active w p a v).0), (move_to_active w p a v).1)
        (some r, v')
    → (r, v') ≡ move_to_active w p a v
script-both w p a v v' r e =
    let first : (move_to_active w p a v).0 ≡ r = let k = ap (λ x. x.0) e in cc k in
    let second : (move_to_active w p a v).1 ≡ v' = ap (λ x. x.1) e in sym (λ i. (first i, second i))

abbrev pub write_opts : JobOpts → Text
write_opts o = o.attempts ∷ o.priority ∷ o.backoff.delay ∷ o.backoff.type

pub write_opts_ne : (o : JobOpts) → text_eq (write_opts o) [] ≡ false
unfolding text_eq
write_opts_ne o = refl

abbrev pub nothing : View
nothing = record { lists = λ k. []; zsets = λ k. []; hashes = λ k. none; counters = λ k. 0 }

abbrev pub server : Redis
server = record {
  Store = View;
  view = λ v. v;
  now = λ v. 1000;
  exists = λ k v. some (present v k);
  incr = count;
  exec = λ cs v. (true, apply_all cs v);
  run_move_to_active = λ w p a v. (some ((move_to_active w p a v).0), (move_to_active w p a v).1);
  hget_all = λ k v. some (fields_of (v.hashes k));
  hincr = raise;
  number_of = number_in;
  number_of-format_nat = number_in-format_nat;
  number_of-none = number_in-none;
  exists_lem = λ k s b e. answered (present s k) b e;
  incr_lem = λ k s s' n e. count-both k s s' n e;
  exec_lem = λ cs s s' e. sym (ap (λ r. r.1) e);
  run_move_to_active_lem = λ w p a s s' r e. script-both w p a s s' r e;
  hget_all_lem = λ k s h e. (answered (fields_of (s.hashes k)) h e);
  hincr_lem = λ k f s s' n e. raise-both k f s s' n e;
}

abbrev pub read_opts : Text → JobOpts
read_opts (a ∷ p ∷ d ∷ t) = record {
  attempts = a;
  priority = p;
  backoff = record { type = t; delay = d };
}
read_opts t = record { attempts = 0; priority = 0; backoff = record { type = t; delay = 0 } }

abbrev pub encoding : Json
encoding = record {
  marshal_opts = write_opts;
  unmarshal_opts = read_opts;
  marshal_event = λ id. id;
  unmarshal_opts-marshal_opts = λ o. refl;
  marshal_opts_ne = write_opts_ne;
}
