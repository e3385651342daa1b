-- ===== src/Prelude/Case/Lower.antt =====
-- unicode.ToLower: ASCII by rule, and the other code points by the table of simple case mappings.
use mathlib.Core.List.{List, [], ◌∷◌}
use schick.Prelude.CaseRow.{Row, row}

abbrev pub lower_rows : List Row
lower_rows =
    row 192 214 1 224
    ∷ row 216 222 1 248
    ∷ row 256 302 2 257
    ∷ row 304 304 1 105
    ∷ row 306 310 2 307
    ∷ row 313 327 2 314
    ∷ row 330 374 2 331
    ∷ row 376 376 1 255
    ∷ row 377 381 2 378
    ∷ row 385 385 1 595
    ∷ row 386 388 2 387
    ∷ row 390 390 1 596
    ∷ row 391 391 1 392
    ∷ row 393 394 1 598
    ∷ row 395 395 1 396
    ∷ row 398 398 1 477
    ∷ row 399 399 1 601
    ∷ row 400 400 1 603
    ∷ row 401 401 1 402
    ∷ row 403 403 1 608
    ∷ row 404 404 1 611
    ∷ row 406 406 1 617
    ∷ row 407 407 1 616
    ∷ row 408 408 1 409
    ∷ row 412 412 1 623
    ∷ row 413 413 1 626
    ∷ row 415 415 1 629
    ∷ row 416 420 2 417
    ∷ row 422 422 1 640
    ∷ row 423 423 1 424
    ∷ row 425 425 1 643
    ∷ row 428 428 1 429
    ∷ row 430 430 1 648
    ∷ row 431 431 1 432
    ∷ row 433 434 1 650
    ∷ row 435 437 2 436
    ∷ row 439 439 1 658
    ∷ row 440 440 1 441
    ∷ row 444 444 1 445
    ∷ row 452 452 1 454
    ∷ row 453 453 1 454
    ∷ row 455 455 1 457
    ∷ row 456 456 1 457
    ∷ row 458 458 1 460
    ∷ row 459 475 2 460
    ∷ row 478 494 2 479
    ∷ row 497 497 1 499
    ∷ row 498 500 2 499
    ∷ row 502 502 1 405
    ∷ row 503 503 1 447
    ∷ row 504 542 2 505
    ∷ row 544 544 1 414
    ∷ row 546 562 2 547
    ∷ row 570 570 1 11365
    ∷ row 571 571 1 572
    ∷ row 573 573 1 410
    ∷ row 574 574 1 11366
    ∷ row 577 577 1 578
    ∷ row 579 579 1 384
    ∷ row 580 580 1 649
    ∷ row 581 581 1 652
    ∷ row 582 590 2 583
    ∷ row 880 882 2 881
    ∷ row 886 886 1 887
    ∷ row 895 895 1 1011
    ∷ row 902 902 1 940
    ∷ row 904 906 1 941
    ∷ row 908 908 1 972
    ∷ row 910 911 1 973
    ∷ row 913 929 1 945
    ∷ row 931 939 1 963
    ∷ row 975 975 1 983
    ∷ row 984 1006 2 985
    ∷ row 1012 1012 1 952
    ∷ row 1015 1015 1 1016
    ∷ row 1017 1017 1 1010
    ∷ row 1018 1018 1 1019
    ∷ row 1021 1023 1 891
    ∷ row 1024 1039 1 1104
    ∷ row 1040 1071 1 1072
    ∷ row 1120 1152 2 1121
    ∷ row 1162 1214 2 1163
    ∷ row 1216 1216 1 1231
    ∷ row 1217 1229 2 1218
    ∷ row 1232 1326 2 1233
    ∷ row 1329 1366 1 1377
    ∷ row 4256 4293 1 11520
    ∷ row 4295 4295 1 11559
    ∷ row 4301 4301 1 11565
    ∷ row 5024 5103 1 43888
    ∷ row 5104 5109 1 5112
    ∷ row 7312 7354 1 4304
    ∷ row 7357 7359 1 4349
    ∷ row 7680 7828 2 7681
    ∷ row 7838 7838 1 223
    ∷ row 7840 7934 2 7841
    ∷ row 7944 7951 1 7936
    ∷ row 7960 7965 1 7952
    ∷ row 7976 7983 1 7968
    ∷ row 7992 7999 1 7984
    ∷ row 8008 8013 1 8000
    ∷ row 8025 8031 2 8017
    ∷ row 8040 8047 1 8032
    ∷ row 8072 8079 1 8064
    ∷ row 8088 8095 1 8080
    ∷ row 8104 8111 1 8096
    ∷ row 8120 8121 1 8112
    ∷ row 8122 8123 1 8048
    ∷ row 8124 8124 1 8115
    ∷ row 8136 8139 1 8050
    ∷ row 8140 8140 1 8131
    ∷ row 8152 8153 1 8144
    ∷ row 8154 8155 1 8054
    ∷ row 8168 8169 1 8160
    ∷ row 8170 8171 1 8058
    ∷ row 8172 8172 1 8165
    ∷ row 8184 8185 1 8056
    ∷ row 8186 8187 1 8060
    ∷ row 8188 8188 1 8179
    ∷ row 8486 8486 1 969
    ∷ row 8490 8490 1 107
    ∷ row 8491 8491 1 229
    ∷ row 8498 8498 1 8526
    ∷ row 8544 8559 1 8560
    ∷ row 8579 8579 1 8580
    ∷ row 9398 9423 1 9424
    ∷ row 11264 11311 1 11312
    ∷ row 11360 11360 1 11361
    ∷ row 11362 11362 1 619
    ∷ row 11363 11363 1 7549
    ∷ row 11364 11364 1 637
    ∷ row 11367 11371 2 11368
    ∷ row 11373 11373 1 593
    ∷ row 11374 11374 1 625
    ∷ row 11375 11375 1 592
    ∷ row 11376 11376 1 594
    ∷ row 11378 11378 1 11379
    ∷ row 11381 11381 1 11382
    ∷ row 11390 11391 1 575
    ∷ row 11392 11490 2 11393
    ∷ row 11499 11501 2 11500
    ∷ row 11506 11506 1 11507
    ∷ row 42560 42604 2 42561
    ∷ row 42624 42650 2 42625
    ∷ row 42786 42798 2 42787
    ∷ row 42802 42862 2 42803
    ∷ row 42873 42875 2 42874
    ∷ row 42877 42877 1 7545
    ∷ row 42878 42886 2 42879
    ∷ row 42891 42891 1 42892
    ∷ row 42893 42893 1 613
    ∷ row 42896 42898 2 42897
    ∷ row 42902 42920 2 42903
    ∷ row 42922 42922 1 614
    ∷ row 42923 42923 1 604
    ∷ row 42924 42924 1 609
    ∷ row 42925 42925 1 620
    ∷ row 42926 42926 1 618
    ∷ row 42928 42928 1 670
    ∷ row 42929 42929 1 647
    ∷ row 42930 42930 1 669
    ∷ row 42931 42931 1 43859
    ∷ row 42932 42946 2 42933
    ∷ row 42948 42948 1 42900
    ∷ row 42949 42949 1 642
    ∷ row 42950 42950 1 7566
    ∷ row 42951 42953 2 42952
    ∷ row 42960 42960 1 42961
    ∷ row 42966 42968 2 42967
    ∷ row 42997 42997 1 42998
    ∷ row 65313 65338 1 65345
    ∷ row 66560 66599 1 66600
    ∷ row 66736 66771 1 66776
    ∷ row 66928 66938 1 66967
    ∷ row 66940 66954 1 66979
    ∷ row 66956 66962 1 66995
    ∷ row 66964 66965 1 67003
    ∷ row 68736 68786 1 68800
    ∷ row 71840 71871 1 71872
    ∷ row 93760 93791 1 93792
    ∷ row 125184 125217 1 125218
    ∷ []
