-- ===== src/Config/Igpu/Tidy.antt =====
-- The properties of the branches have every key once, no empty value, and no memory size where the
-- branch returns at once.
use freaky_ocs.Base.{
  String, ◌≡◌, refl, Bool, true, not, ◌&&◌, ◌||◌, List, [], ◌∷◌, all, elem, distinct, str_eq,
  eq_iff, arith, if_both,
}
use freaky_ocs.Base.Dict.{keys, insert}
use freaky_ocs.Config.Igpu.State.{Properties, Igpu, Stage, early, rest, put, put_if, is_on, spoof}
use freaky_ocs.Config.Igpu.Families.{ironlake, sandy_bridge}

abbrev pub filled : List (String × String) → Bool
filled kvs = all (λ kv. not (str_eq kv.1 "")) kvs

abbrev pub tidy : Properties → Bool
tidy p = distinct (keys p) && filled p

elem-insert :
    (x key value : String) (p : Properties)
    → elem x (keys (insert key value p)) ≡ (str_eq key x || elem x (keys p))
unfolding elem keys insert
elem-insert x key value [] = ground arith
elem-insert x key value ((k, v) ∷ p) =
    ground (arith, eq_iff k key, eq_iff key x, eq_iff k x, elem-insert x key value p)

insert-tidy :
    (key value : String) (p : Properties)
    → not (str_eq value "") ≡ true
    → tidy p ≡ true
    → tidy (insert key value p) ≡ true
unfolding distinct keys insert elem
insert-tidy key value [] f h = ground arith
insert-tidy key value ((k, v) ∷ p) f h =
    ground (arith, eq_iff k key, eq_iff key k, elem-insert k key value p, insert-tidy key value p f)

pub put-tidy :
    (kvs : List (String × String)) (p : Properties)
    → filled kvs ≡ true
    → tidy p ≡ true
    → tidy (put kvs p) ≡ true
unfolding put
put-tidy [] p f h = h
put-tidy ((key, value) ∷ kvs) p f h =
    put-tidy kvs (insert key value p) (ground arith) (insert-tidy key value p (ground arith) h)

pub put_if-tidy :
    (b : Bool) (kvs : List (String × String)) (p : Properties)
    → filled kvs ≡ true
    → tidy p ≡ true
    → tidy (put_if b kvs p) ≡ true
unfolding put_if
put_if-tidy b kvs p f h = if_both (λ q. tidy q ≡ true) b (put-tidy kvs p f h) h

pub spoof-tidy :
    (ids : List String) (value : String) (g : Igpu)
    → filled (("device-id", value) ∷ []) ≡ true
    → tidy (spoof ids value g) ≡ true
unfolding spoof distinct keys
spoof-tidy ids value g f = put_if-tidy _ _ [] f refl

-- No key of the list is the one given.
abbrev pub lacks : String → List (String × String) → Bool
lacks key kvs = all (λ kv. not (str_eq kv.0 key)) kvs

pub insert-lacks :
    (x key value : String) (p : Properties)
    → not (str_eq key x) ≡ true
    → lacks x p ≡ true
    → lacks x (insert key value p) ≡ true
unfolding insert
insert-lacks x key value [] n h = ground arith
insert-lacks x key value ((k, v) ∷ p) n h = ground (arith, insert-lacks x key value p n)

pub put-lacks :
    (x : String) (kvs : List (String × String)) (p : Properties)
    → lacks x kvs ≡ true
    → lacks x p ≡ true
    → lacks x (put kvs p) ≡ true
unfolding put
put-lacks x [] p f h = h
put-lacks x ((key, value) ∷ kvs) p f h =
    put-lacks x kvs (insert key value p) (ground arith)
      (insert-lacks x key value p (ground arith) h)

pub put_if-lacks :
    (x : String) (b : Bool) (kvs : List (String × String)) (p : Properties)
    → lacks x kvs ≡ true
    → lacks x p ≡ true
    → lacks x (put_if b kvs p) ≡ true
unfolding put_if
put_if-lacks x b kvs p f h = if_both (λ q. lacks x q ≡ true) b (put-lacks x kvs p f h) h

-- A branch that goes on leaves tidy properties; one that returns has neither memory size.
abbrev pub no_memory : Properties → Bool
no_memory p = lacks "framebuffer-stolenmem" p && lacks "framebuffer-fbmem" p

abbrev pub Fit : Stage → Type 0
Fit (early p) = no_memory p ≡ true
Fit (rest p) = tidy p ≡ true

pub ironlake-Fit : (g : Igpu) → Fit (ironlake g)
unfolding ironlake distinct keys
ironlake-Fit g = put-tidy _ [] refl refl

pub sandy_bridge-Fit : (g : Igpu) → Fit (sandy_bridge g)
unfolding sandy_bridge
sandy_bridge-Fit g =
    let p =
      put-tidy (("AAPL,snb-platform-id", "10000300") ∷ []) _ refl
        (spoof-tidy ("0106" ∷ "1106" ∷ "1601" ∷ "0116" ∷ "0126" ∷ "0102" ∷ []) "26010000" g refl) in
    if_both Fit (is_on g "Desktop") (put_if-tidy _ _ _ refl p)
      (if_both Fit (is_on g "Laptop") (put-tidy _ _ refl (put_if-tidy _ _ _ refl p)) p)
