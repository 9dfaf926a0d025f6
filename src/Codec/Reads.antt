-- ===== src/Codec/Reads.antt =====
-- The values of a body: which are read one after another, and which one fails.
use mesher.Prelude.{ℕ, zero, suc, ◌+◌, ◌≡◌, refl, ap, List, [], ◌∷◌, Option, none, some, length}
use mesher.Prelude.Text.{Text}
use mesher.Prelude.Go.{Go, ret, panic, ◌>>=◌, load, store, >>=-cases}
use mesher.Wire.Object.{Object}
use mesher.Wire.Hessian.{Hessian}
use mesher.Wire.ReadBuffer.{ReadBuffer, read_object, read_string}
use mesher.Message.{Argument}
use mesher.Codec.Decode.{read_arguments}

module _ (h : Hessian) where
  -- Objects that are read one after another, none with an error.
  pub data Values : ReadBuffer → List Object → ReadBuffer → Type 0 where
    no_value : {b : ReadBuffer} → Values b [] b
    value :
        {b b1 b' : ReadBuffer} {o : Object} {os : List Object}
        → read_object h b ≡ ret (o, none, b1)
        → Values b1 os b'
        → Values b (o ∷ os) b'

  -- Texts that are read one after another.
  pub data Texts : ReadBuffer → List Text → ReadBuffer → Type 0 where
    no_text : {b : ReadBuffer} → Texts b [] b
    next_text :
        {b b1 b' : ReadBuffer} {s : Text} {ss : List Text}
        → read_string h b ≡ ret (s, b1)
        → Texts b1 ss b'
        → Texts b (s ∷ ss) b'

  -- Objects without an error, and behind them one that is read with an error.
  pub record Stops (b : ReadBuffer) (msg : Text) (b' : ReadBuffer) : Type 0 where
    pub objects : List Object
    pub at : ReadBuffer
    pub before : Values b objects at
    pub last : Object
    pub fails : read_object h at ≡ ret (last, some msg, b')

  abbrev pub ValuesRead : ℕ → ReadBuffer → Go (Option Text × List Argument × ReadBuffer) → Type 0
  ValuesRead n b (ret (none, args, b')) = (os : List Object) × (length os ≡ n) × Values b os b'
  ValuesRead n b (ret (some msg, args, b')) = Stops b msg b'
  ValuesRead n b panic = Unit {0}

  ValuesRead-suc :
      (n : ℕ) (b b1 : ReadBuffer) (o : Object) (g : Go (Option Text × List Argument × ReadBuffer))
      → read_object h b ≡ ret (o, none, b1)
      → ValuesRead n b1 g
      → ValuesRead (suc n) b g
  ValuesRead-suc n b b1 o (ret (none, args, b')) e (os, l, v) = (o ∷ os, ap suc l, value e v)
  ValuesRead-suc n b b1 o (ret (some msg, args, b')) e s = record {
    objects = o ∷ s.objects;
    at = s.at;
    before = value e s.before;
    last = s.last;
    fails = s.fails;
  }
  ValuesRead-suc n b b1 o panic e u = tt

  one_argument-Read :
      (n i : ℕ) (args : List Argument) (b b1 : ReadBuffer) (o : Object) (err : Option Text)
      → read_object h b ≡ ret (o, err, b1)
      → ((args' : List Argument) → ValuesRead n b1 (read_arguments h n (i + 1) args' b1))
      → ValuesRead (suc n) b (elim err [
        | some msg ↦ ret (some msg, args, b1)
        | none ↦ do
          arg ← load args i
          args ← store args i (record arg { value = o })
          read_arguments h n (i + 1) args b1
      ])
  one_argument-Read n i args b b1 o (some msg) e rest = record {
    objects = [];
    at = b;
    before = no_value;
    last = o;
    fails = e;
  }
  one_argument-Read n i args b b1 o none e rest =
      >>=-cases (ValuesRead (suc n) b) (load args i) _ tt λ arg _.
        >>=-cases (ValuesRead (suc n) b) (store args i (record arg { value = o })) _ tt
          λ args' _. ValuesRead-suc n b b1 o (read_arguments h n (i + 1) args' b1) e (rest args')

  pub read_arguments-Read :
      (n i : ℕ) (args : List Argument) (b : ReadBuffer)
      → ValuesRead n b (read_arguments h n i args b)
  unfolding read_arguments
  read_arguments-Read zero i args b = ([], refl, no_value)
  read_arguments-Read (suc n) i args b =
      >>=-cases (ValuesRead (suc n) b) (read_object h b) _ tt λ (o, err, b1) e.
        one_argument-Read n i args b b1 o err e λ args'. read_arguments-Read n (i + 1) args' b1
