-- ===== src/Pool/Runs.antt =====
-- All that nntp/usenet.cc and its connections, nntp/connection.cc, do together.
use post2usenet.Common.Result.{Result}
use post2usenet.Connection.{Connection}
use post2usenet.Usenet.{Usenet}
use post2usenet.Pool.Sound.{Sound}
