-- ===== src/Examples/Blobs.antt =====
-- A concrete encoding of member blobs, which reads back what it wrote: a name is its bytes, each
-- plus two, and a one; a zero ends a list of names.
use kroxy.Base.{◌≡◌, ◌≢◌, refl, ap, ℕ, zero, suc, some, List, [], ◌∷◌, map, Bytes}
use kroxy.Rewrite.Kmsg.{Topic}
use kroxy.Rewrite.Members.{MemberCodec, IsCodec, Subscription, Assignment}

unfoldable pub put_name : Bytes → Bytes → Bytes
put_name [] rest = 1 ∷ rest
put_name (c ∷ cs) rest = suc (suc c) ∷ put_name cs rest

unfoldable pub put_names : List Bytes → Bytes → Bytes
put_names [] rest = 0 ∷ rest
put_names (n ∷ ns) rest = put_name n (put_names ns rest)

unfoldable pub add_to_first : ℕ → List Bytes → List Bytes
add_to_first c [] = (c ∷ []) ∷ []
add_to_first c (n ∷ ns) = (c ∷ n) ∷ ns

unfoldable pub take_names : Bytes → List Bytes × Bytes
take_names [] = ([], [])
take_names (zero ∷ rest) = ([], rest)
take_names (suc zero ∷ rest) = let (ns, t) = take_names rest in ([] ∷ ns, t)
take_names (suc (suc c) ∷ rest) = let (ns, t) = take_names rest in (add_to_first c ns, t)

take_names-put_name :
    (n : Bytes) (ns : List Bytes) (rest t : Bytes)
    → take_names rest ≡ (ns, t)
    → take_names (put_name n rest) ≡ (n ∷ ns, t)
unfolding take_names put_name add_to_first
take_names-put_name [] ns rest t e = ap (λ p. ([] ∷ p.0, p.1)) e
take_names-put_name (c ∷ cs) ns rest t e =
    ap (λ p. (add_to_first c p.0, p.1)) (take_names-put_name cs ns rest t e)

take_names-put_names : (ns : List Bytes) (t : Bytes) → take_names (put_names ns t) ≡ (ns, t)
unfolding take_names put_names
take_names-put_names [] t = refl
take_names-put_names (n ∷ ns) t =
    take_names-put_name n ns (put_names ns t) t (take_names-put_names ns t)

put_names_ne_nil : (ns : List Bytes) (t : Bytes) → put_names ns t ≢ []
unfolding put_names put_name
put_names_ne_nil [] t = λ e. cc
put_names_ne_nil ([] ∷ ns) t = λ e. cc
put_names_ne_nil ((c ∷ cs) ∷ ns) t = λ e. cc

unfoldable pub name_of : Topic (Unit {0}) → Bytes
name_of t = t.topic

unfoldable pub topic_of : Bytes → Topic (Unit {0})
topic_of n = record { topic = n; rest = tt }

abbrev pub codec : MemberCodec (Unit {0})
codec = record {
  read_subscription = λ b.
      let (topics, more) = take_names b in
      some (record {
        topics = topics;
        owned_partitions = map topic_of (take_names more).0;
        rest = tt;
      });
  append_subscription = λ m. put_names m.topics (put_names (map name_of m.owned_partitions) []);
  read_assignment = λ b. some (record { topics = map topic_of (take_names b).0; rest = tt });
  append_assignment = λ a. put_names (map name_of a.topics) [];
}

topics_back : (ts : List (Topic (Unit {0}))) → map topic_of (map name_of ts) ≡ ts
unfolding name_of topic_of
topics_back [] = refl
topics_back (t ∷ ts) = ap (◌∷◌ t) (topics_back ts)

read_back_subscription :
    (m : Subscription (Unit {0})) → codec.read_subscription (codec.append_subscription m) ≡ some m
read_back_subscription m =
    rw
      (
        take_names-put_names m.topics (put_names (map name_of m.owned_partitions) []),
        take_names-put_names (map name_of m.owned_partitions) [],
        topics_back m.owned_partitions,
      )
      refl

read_back_assignment :
    (a : Assignment (Unit {0})) → codec.read_assignment (codec.append_assignment a) ≡ some a
read_back_assignment a =
    rw (take_names-put_names (map name_of a.topics) [], topics_back a.topics) refl

pub codec-IsCodec : IsCodec codec
codec-IsCodec = record {
  read-append_subscription = λ f blob m e fit. read_back_subscription _;
  subscription_ne_nil = λ m. put_names_ne_nil m.topics _;
  read-append_assignment = λ f blob a e fit. read_back_assignment _;
  assignment_ne_nil = λ a. put_names_ne_nil (map name_of a.topics) [];
}
