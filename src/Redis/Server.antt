-- ===== src/Redis/Server.antt =====
-- A server that never fails: it shows that what is assumed of `Redis` can be met, and runs the tests.
use base_backend.Prelude.{
  ◌≡◌, refl, sym, ap, subst, Option, none, some, List, [], map, contains, is_some,
}
use base_backend.Redis.{value_eq, string_at, run, runs, Redis}

value_or_nothing : {A : Type 0} → Option (List A) → List A
value_or_nothing none = []
value_or_nothing (some vs) = vs

pub same_list : {A : Type 0} {xs ys : List A} → some xs ≡ some ys → xs ≡ ys
unfolding value_or_nothing
same_list h = ap value_or_nothing h

abbrev pub server : Redis
server = record {
  exec = λ now cs s. (runs now cs s, run now cs s);
  exec_done = λ now cs s h. (h, refl);
  mget = λ now ks s. some (map (string_at now s) ks);
  mget_done = λ now ks s h. sym (same_list h);
  zrange = λ now k s. some ((s.zsets k).members);
  zrange_done = λ now k s v h.
      subst (λ vs. contains vs v ≡ is_some ((s.zsets k).score v)) (same_list h)
        ((s.zsets k).listed v);
}
