-- ===== src/Usenet/Order/Queueing.antt =====
-- The line that the pool of nntp/usenet.cc is to be: what is submitted is served in its order.
use post2usenet.Common.{List, [], ◌∷◌, ◌++◌, append-nil, append_assoc, ◌≡◌, sym, ap, ◌∙◌}
use post2usenet.Usenet.{Command}

-- What has been served, in order, and what is still in the line.
pub record Line : Type 0 where
  pub served : List Command
  pub pending : List Command

-- A line from which the submitted commands lead to another: commands are put at the end of the line,
-- and are served from its front.
pub data Fifo : Line → List Command → Line → Type 0 where
  idle : (a : Line) → Fifo a [] a
  submit :
      (a b : Line) (cmd : Command) (later : List Command)
      → Fifo (record a { pending = a.pending ++ cmd ∷ [] }) later b
      → Fifo a (cmd ∷ later) b
  serve :
      (a b : Line) (cmd : Command) (left later : List Command)
      → a.pending ≡ cmd ∷ left
      → Fifo (record { served = a.served ++ cmd ∷ []; pending = left }) later b
      → Fifo a later b

pub Fifo-trans :
    (a b c : Line) (new later : List Command)
    → Fifo a new b
    → Fifo b later c
    → Fifo a (new ++ later) c
Fifo-trans a b c new later (Fifo.idle _) after = after
Fifo-trans a b c new later (Fifo.submit _ _ cmd more before) after =
    Fifo.submit a c cmd (more ++ later) (Fifo-trans _ b c more later before after)
Fifo-trans a b c new later (Fifo.serve _ _ cmd left more e before) after =
    Fifo.serve a c cmd left (more ++ later) e (Fifo-trans _ b c more later before after)

-- A line keeps the order of what is submitted to it.
pub Fifo-order :
    (a b : Line) (new : List Command)
    → Fifo a new b
    → b.served ++ b.pending ≡ (a.served ++ a.pending) ++ new
Fifo-order a b new (Fifo.idle _) = sym (append-nil (a.served ++ a.pending))
Fifo-order a b new (Fifo.submit _ _ cmd later run) =
    Fifo-order _ b later run
    ∙ ap (λ cs. cs ++ later) (sym (append_assoc a.served a.pending (cmd ∷ [])))
    ∙ append_assoc (a.served ++ a.pending) (cmd ∷ []) later
Fifo-order a b new (Fifo.serve _ _ cmd left later e run) =
    Fifo-order _ b later run
    ∙ ap (λ cs. cs ++ later)
        (append_assoc a.served (cmd ∷ []) left ∙ ap (λ cs. a.served ++ cs) (sym e))
