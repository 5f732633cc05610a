-- ===== src/DiskLog/Calls.antt =====
-- begin_op and log_write answer to steps of the store.

use public_systems_projects.Base.{
  put, put_ne, ℕ, ◌+◌, ◌≡◌, inl, inr, refl, ◌∙◌, ◌||◌, ◌==◌, Bool-cases, some, List, [], ◌∷◌, ret,
  arith,
}
use public_systems_projects.DiskLog.{Block, Machine, bread, begin_op, log_add, log_write}
use public_systems_projects.DiskLog.Recovery.{has, IsHome, AllHome}
use public_systems_projects.DiskLog.Store.{
  begins, writes, Store, Matches, Answers, begin_op_inv, log_write_inv,
}
use public_systems_projects.DiskLog.Space.{length-log_add}

pub begins-Matches :
    (m m' : Machine) (a : Store) → Matches m a → begin_op m ≡ some m' → Answers a m'
unfolding Answers bread
begins-Matches m m' a ok e = rw (begin_op_inv m m' e) (
  record a { under_way = a.under_way + 1 },
  begins,
  record {
    quiet = record {
      empty = ok.quiet.empty;
      homes = ok.quiet.homes;
      fits = ok.quiet.fits;
      clean = ok.quiet.clean;
    };
    counted = omega (arith, ok.counted);
    not_committing = ok.not_committing;
    stable = ok.stable;
    current = ok.current;
  },
)

homes-log_add :
    (start size b : ℕ) (bs : List ℕ)
    → IsHome start size b
    → AllHome start size bs
    → AllHome start size (log_add b bs)
unfolding log_add AllHome
homes-log_add start size b [] home homes = (home, tt)
homes-log_add start size b (c ∷ bs) home (h, homes) = elim (Bool-cases (c == b)) [
  | inl same ↦ rw same (home, homes)
  | inr other ↦ rw other (h, homes-log_add start size b bs home homes)
]

has-log_add : (x b : ℕ) (bs : List ℕ) → has x (log_add b bs) ≡ (b == x) || has x bs
unfolding has log_add
has-log_add x b [] = refl
has-log_add x b (c ∷ bs) = ground (arith, has-log_add x b bs)

put-agree : (f g : ℕ → Block) (b x : ℕ) (c : Block) → f x ≡ g x → put f b c x ≡ put g b c x
unfolding put
put-agree f g b x c e = rw e refl

bread-put :
    (m : Machine) (b x : ℕ) (c : Block)
    → bread (record m { cache = put m.cache b (some c); lh = log_add b m.lh }) x
      ≡ put (bread m) b c x
unfolding bread put
bread-put m b x c = ground arith

pub writes-Matches :
    (m m' : Machine) (a : Store) (b : ℕ) (c : Block)
    → Matches m a
    → IsHome m.start m.size b
    → log_write m b c ≡ ret m'
    → Answers a m'
unfolding Answers
writes-Matches m m' a b c ok home e =
    let (is, room, going) = log_write_inv m m' b c e in
    rw is (
      record a { current = put a.current b c },
      writes b c (omega (arith, ok.counted)),
      record {
        quiet = record {
          empty = ok.quiet.empty;
          homes = homes-log_add m.start m.size b m.lh home ok.quiet.homes;
          fits = omega (arith, length-log_add b m.lh);
          clean = λ x out.
              bread-put m b x c
              ∙ put_ne (bread m) b x c
                  (λ e'. absurd (ground (arith, has-log_add x b m.lh, out, e')))
              ∙ ok.quiet.clean x (ground (arith, has-log_add x b m.lh, out));
        };
        counted = ok.counted;
        not_committing = ok.not_committing;
        stable = ok.stable;
        current = λ x at. bread-put m b x c ∙ put-agree (bread m) a.current b x c (ok.current x at);
      },
    )
